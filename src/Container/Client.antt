-- ===== src/Container/Client.antt =====
-- A client that makes any sequence of calls of a container, and what it sees.
use gittest.Prelude.{ℕ, suc, ◌+◌, ◌≡◌, ◌<◌, refl, inl, inr, none, List, [], ◌∷◌, length, arith, ap}
use gittest.Prelude.Int.{ℤ}
use gittest.LinkList.{Llist}
use gittest.LinkList.Memory.{Heap, Cmd, pure, ◌>>=◌, Allocator}
use gittest.LinkList.Chain.{Cells}
use gittest.LinkList.Invariant.{IsList, Returns, returns, bind}
use gittest.LinkList.Clear.{elements}
use gittest.Container.{
  Op, put, take, Reply, Trace, done, put_done, put_failed, took, took_none, Added, Container,
}

module _ {D : Type 0} (m : Allocator D) (add : D → List D → List D) (c : Container m add) where
  pub run : ℕ → Llist → List (Op D) → Cmd D (List (Reply D))
  run fuel l [] = pure []
  run fuel l (put d ∷ ops) = do r ← c.insert l d; rs ← run fuel l ops; pure ((r, none) ∷ rs)
  run fuel l (take ∷ ops) = do r ← c.remove fuel l; rs ← run fuel l ops; pure (r ∷ rs)

  length-elements : (xs : Cells D) → length (elements xs) ≡ length xs
  length-elements [] = refl
  length-elements ((p, v) ∷ xs) = ap suc (length-elements xs)

  abbrev pub Explained : Llist → List D → List (Op D) → List (Reply D) → Heap D → Type 0
  Explained l q ops rs g = (ys : Cells D) × IsList g l ys × Trace add q ops rs (elements ys)

  -- `add` makes a sequence one longer.
  module _ (grows : (d : D) (q : List D) → length (add d q) ≡ suc (length q)) where
    after_put :
        (h : Heap D) (l : Llist) (xs : Cells D) (fuel : ℕ) (d : D) (ops : List (Op D))
        → IsList h l xs
        → ((g : Heap D) (ys : Cells D)
            → IsList g l ys
            → length ys + length ops < fuel
            → Returns (Explained l (elements ys) ops) (run fuel l ops g))
        → length xs + suc (length ops) < fuel
        → (r : ℤ) (g : Heap D) → Added m add h l xs d r g
        → Returns
            (Explained l (elements xs) (put d ∷ ops))
            ((run fuel l ops >>= λ rs. pure {A = List (Reply D)} ((r, none) ∷ rs)) g)
    after_put h l xs fuel d ops is next enough r g (inl (e, full, same)) =
        rw (e, same)
          (bind (next h xs is (omega arith)) λ rs g' (ys, is', t). returns (ys, is', put_failed t))
    after_put h l xs fuel d ops is next enough r g (inr (e, (ys, is', el))) =
        let small : length ys + length ops < fuel =
          omega
            (arith, ap length el, grows d (elements xs), length-elements ys, length-elements xs) in
        rw e (
          bind (next g ys is' small)
            λ rs g' (zs, is'', t). returns (zs, is'', put_done (rw el at t)))

    -- A client that makes the calls `ops` one after the other, with fuel for every content that may
    -- arise, ends without a fault in a well-formed list, and sees what a container that held the
    -- elements of the list may answer, and ends with what that container would hold.
    pub run-Explained :
        {h : Heap D} {l : Llist} {xs : Cells D} (fuel : ℕ) (ops : List (Op D))
        → IsList h l xs
        → length xs + length ops < fuel
        → Returns (Explained l (elements xs) ops) (run fuel l ops h)
    unfolding run
    run-Explained {xs} fuel [] is enough = returns (xs, is, done)
    run-Explained {h} {l} {xs} fuel (put d ∷ ops) is enough = bind (c.insert_law d is) (
        after_put h l xs fuel d ops is (λ g ys is'. run-Explained {h = g} {xs = ys} fuel ops is')
          enough)
    run-Explained {h} {l} {xs = []} fuel (take ∷ ops) is enough =
        bind (c.remove_law fuel is (omega arith)) (λ r g (e, same).
          rw (e, same)
            (bind (run-Explained {h = h} {xs = []} fuel ops is (omega arith))
              λ rs g' (ys, is', t). returns (ys, is', took_none t)))
    run-Explained {h} {l} {xs = (p, d) ∷ xs} fuel (take ∷ ops) is enough =
        bind (c.remove_law fuel is (omega arith)) (λ r g (e, is'). rw e (
          bind (run-Explained {h = g} {xs = xs} fuel ops is' (omega arith))
            λ rs g' (ys, is'', t). returns (ys, is'', took t)))
