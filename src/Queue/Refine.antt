-- ===== src/Queue/Refine.antt =====
-- The queue meets the contract of a container that adds at the end.
use gittest.Prelude.{ℕ, suc, ◌+◌, ◌≡◌, ◌<◌, refl, inl, inr, List, [], ◌∷◌, ◌++◌, length, ap}
use native.Mathlib.Decide.{ℕ_discrete}
use gittest.LinkList.{Llist}
use gittest.LinkList.Memory.{null, Heap, Allocator}
use gittest.LinkList.Chain.{Cells}
use gittest.LinkList.Invariant.{IsList, Returns, returns, mono}
use gittest.LinkList.Clear.{elements}
use gittest.LinkList.Insert.{insert_backward, insert_fails}
use gittest.LinkList.Remove.{fetch_lem}
use gittest.Container.{Op, Added, Taken, Container}
use gittest.Container.Client.{Explained, run, run-Explained}
use gittest.Queue.{queue_enq, queue_deq}

abbrev pub snoc : {D : Type 0} → D → List D → List D
snoc d q = q ++ (d ∷ [])

module _ {D : Type 0} where
  pub elements-append : (xs ys : Cells D) → elements (xs ++ ys) ≡ elements xs ++ elements ys
  elements-append [] ys = refl
  elements-append ((p, v) ∷ xs) ys = ap (λ zs. v ∷ zs) (elements-append xs ys)

  length-snoc : (d : D) (q : List D) → length (snoc d q) ≡ suc (length q)
  length-snoc d [] = refl
  length-snoc d (x ∷ q) = ap suc (length-snoc d q)

module _ {D : Type 0} (m : Allocator D) where
  enq_law :
      {h : Heap D} {l : Llist} {xs : Cells D} (d : D)
      → IsList h l xs
      → Returns (Added m snoc h l xs d) (queue_enq m l d h)
  unfolding queue_enq
  enq_law {h} {l} {xs} d is = elim (ℕ_discrete (m.malloc h) null) [
    | yes full ↦ rw (insert_fails m h l d _ full) (returns (inl (refl, full, refl)))
    | no ne ↦ mono (insert_backward m d is ne) λ r g (e, is', _).
        inr (e, (xs ++ (m.malloc h, d) ∷ [], is', elements-append xs ((m.malloc h, d) ∷ [])))
  ]

  deq_law :
      {h : Heap D} {l : Llist} (xs : Cells D) (fuel : ℕ)
      → IsList h l xs
      → length xs < fuel
      → Returns (Taken h l xs) (queue_deq fuel l h)
  unfolding queue_deq
  deq_law [] fuel is enough = fetch_lem fuel tt _ is enough
  deq_law ((p, d) ∷ xs) fuel is enough =
      mono (fetch_lem fuel tt _ is enough) λ r g (e, is', _, _). (e, is')

  pub queue_container : Container m snoc
  queue_container = record {
    insert = queue_enq m;
    remove = queue_deq;
    insert_law = enq_law;
    remove_law = λ {h} {l} {xs} fuel. deq_law xs fuel;
  }

  -- Whatever enqueues and dequeues a client makes of a well-formed queue, with fuel for every content that may arise, they end
  -- without a fault, and the answers and the final elements are those of a first-in first-out
  -- sequence: an enqueue adds at the end or fails for want of memory, a dequeue takes the oldest
  -- element and fails only on the empty queue.
  pub queue_run-Explained :
      {h : Heap D} {q : Llist} {xs : Cells D} (fuel : ℕ) (ops : List (Op D))
      → IsList h q xs
      → length xs + length ops < fuel
      → Returns
          (Explained m snoc queue_container q (elements xs) ops)
          (run m snoc queue_container fuel q ops h)
  queue_run-Explained fuel ops is enough =
      run-Explained m snoc queue_container length-snoc fuel ops is enough
