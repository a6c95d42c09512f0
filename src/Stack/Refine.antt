-- ===== src/Stack/Refine.antt =====
-- The stack meets the contract of a container that adds at the front.
use gittest.Prelude.{ℕ, suc, ◌+◌, ◌≡◌, ◌<◌, refl, inl, inr, List, [], ◌∷◌, length}
use native.Mathlib.Decide.{ℕ_discrete}
use gittest.LinkList.{Llist}
use gittest.LinkList.Memory.{null, Heap, Allocator}
use gittest.LinkList.Chain.{Cells}
use gittest.LinkList.Invariant.{IsList, Returns, returns, mono}
use gittest.LinkList.Clear.{elements}
use gittest.LinkList.Insert.{insert_forward, insert_fails}
use gittest.LinkList.Remove.{fetch_lem}
use gittest.Container.{Op, Added, Taken, Container}
use gittest.Container.Client.{Explained, run, run-Explained}
use gittest.Stack.{stack_push, stack_pop}

abbrev pub push_front : {D : Type 0} → D → List D → List D
push_front d q = d ∷ q

module _ {D : Type 0} where
  length-push_front : (d : D) (q : List D) → length (push_front d q) ≡ suc (length q)
  length-push_front d q = refl

module _ {D : Type 0} (m : Allocator D) where
  push_law :
      {h : Heap D} {l : Llist} {xs : Cells D} (d : D)
      → IsList h l xs
      → Returns (Added m push_front h l xs d) (stack_push m l d h)
  unfolding stack_push
  push_law {h} {l} {xs} d is = elim (ℕ_discrete (m.malloc h) null) [
    | yes full ↦ rw (insert_fails m h l d _ full) (returns (inl (refl, full, refl)))
    | no ne ↦
        mono (insert_forward m d is ne)
          λ r g (e, is', _). inr (e, ((m.malloc h, d) ∷ xs, is', refl))
  ]

  pop_law :
      {h : Heap D} {l : Llist} (xs : Cells D) (fuel : ℕ)
      → IsList h l xs
      → length xs < fuel
      → Returns (Taken h l xs) (stack_pop fuel l h)
  unfolding stack_pop
  pop_law [] fuel is enough = fetch_lem fuel tt _ is enough
  pop_law ((p, d) ∷ xs) fuel is enough =
      mono (fetch_lem fuel tt _ is enough) λ r g (e, is', _, _). (e, is')

  pub stack_container : Container m push_front
  stack_container = record {
    insert = stack_push m;
    remove = stack_pop;
    insert_law = push_law;
    remove_law = λ {h} {l} {xs} fuel. pop_law xs fuel;
  }

  -- Whatever pushes and pops a client makes of a well-formed stack, with fuel for every content that may arise, they end
  -- without a fault, and the answers and the final elements are those of a last-in first-out
  -- sequence: a push adds at the front or fails for want of memory, a pop takes the newest element
  -- and fails only on the empty stack.
  pub stack_run-Explained :
      {h : Heap D} {q : Llist} {xs : Cells D} (fuel : ℕ) (ops : List (Op D))
      → IsList h q xs
      → length xs + length ops < fuel
      → Returns
          (Explained m push_front stack_container q (elements xs) ops)
          (run m push_front stack_container fuel q ops h)
  stack_run-Explained fuel ops is enough =
      run-Explained m push_front stack_container length-push_front fuel ops is enough
