-- ===== src/LinkList/Walk.antt =====
-- `llist_getnum` and `llist_travel`: the walks that remove nothing.
use gittest.Prelude.{
  ℕ, zero, suc, ◌+◌, ◌≡◌, ◌<◌, refl, [], ◌∷◌, ◌++◌, arith, if◌then◌else◌, length, Bool-cases, inl,
  inr,
}
use gittest.Prelude.Int.{ℤ}
use mathlib.Core.List.{append_assoc}
use gittest.LinkList.{
  Llist, is_break, apply_op, getnum_loop, llist_getnum, travel_loop, llist_travel,
}
use gittest.LinkList.Memory.{Ptr, Heap, ok}
use gittest.LinkList.Chain.{Cells, first}
use gittest.LinkList.Invariant.{IsList, Returns, returns, mono}
use gittest.LinkList.Remove.{self_eq}
use gittest.LinkList.Cursor.{
  get_next_of_head, not_head, get_next_at, get_content_at, rewritten, set_content_at,
  IsList-rewritten,
}

module _ {D : Type 0} where
  -- A node moves from the part before the walk to the part behind it.
  pub IsList-shift :
      {h : Heap D} {l : Llist} (us : Cells D) (p : Ptr) (v : D) (ws : Cells D)
      → IsList h l (us ++ (p, v) ∷ ws)
      → IsList h l ((us ++ (p, v) ∷ []) ++ ws)
  IsList-shift us p v ws is = rw (append_assoc us ((p, v) ∷ []) ws) is

  pub IsList-unshift :
      {h : Heap D} {l : Llist} (us : Cells D) (p : Ptr) (v : D) (ws : Cells D)
      → IsList h l ((us ++ (p, v) ∷ []) ++ ws)
      → IsList h l (us ++ (p, v) ∷ ws)
  IsList-unshift us p v ws is = rw (append_assoc us ((p, v) ∷ []) ws) at is

  getnum_loop_lem :
      {h : Heap D} {l : Llist} (k i : ℕ) (us ws : Cells D)
      → IsList h l (us ++ ws)
      → length ws < k
      → getnum_loop k l.head (first ws l.head) i h ≡ ok (i + length ws) h
  unfolding getnum_loop
  getnum_loop_lem zero i us ws is fuel = absurd (omega arith)
  getnum_loop_lem (suc k) i us [] is fuel = ground arith
  getnum_loop_lem (suc k) i us ((p, v) ∷ ws) is fuel = ground (
    arith,
    not_head us p v ws is,
    get_next_at us p v ws is,
    getnum_loop_lem k (i + 1) (us ++ (p, v) ∷ []) ws (IsList-shift us p v ws is) (omega arith),
  )

  -- On a well-formed list, with more fuel than it has nodes, `llist_getnum` counts the elements and
  -- writes nothing.
  pub llist_getnum_lem :
      {h : Heap D} {l : Llist} {xs : Cells D} (fuel : ℕ)
      → IsList h l xs
      → length xs < fuel
      → llist_getnum fuel l h ≡ ok (length xs) h
  unfolding llist_getnum
  llist_getnum_lem {xs} fuel is enough =
      rw (get_next_of_head is) (ground (arith, getnum_loop_lem fuel 0 [] xs is enough))

  pub apply_op_at :
      {h : Heap D} {l : Llist} (op : D → ℤ × D) (us : Cells D) (p : Ptr) (v : D) (ws : Cells D)
      (is : IsList h l (us ++ (p, v) ∷ ws))
      → apply_op op p h ≡ ok (op v).0 (rewritten us p v ws is (op v).1)
  apply_op_at op us p v ws is =
      rw (get_content_at us p v ws is, set_content_at us p v ws is (op v).1)

module _ {D : Type 0} (op : D → ℤ × D) where
  -- The elements after a walk that stops behind the first one on which `op` asks for it.
  abbrev pub travelled : Cells D → Cells D
  travelled [] = []
  travelled ((p, v) ∷ xs) = (p, (op v).1) ∷ (if is_break (op v).0 then xs else travelled xs)

  -- No node has been allocated, freed, or handed to a `node_op`.
  abbrev pub SameNodes : Heap D → Heap D → Type 0
  SameNodes h g = ((q : Ptr) → g.live q ≡ h.live q) × (g.calls ≡ h.calls)

  travel_loop_lem :
      (h : Heap D) {l : Llist} (k : ℕ) (us ws : Cells D)
      → IsList h l (us ++ ws)
      → length ws < k
      → Returns
          (λ _ g. IsList g l (us ++ travelled ws) × SameNodes h g)
          (travel_loop k op l.head (first ws l.head) h)
  unfolding travel_loop
  travel_loop_lem h zero us ws is fuel = absurd (omega arith)
  travel_loop_lem h {l} (suc k) us [] is fuel =
      rw (self_eq l.head) (returns (is, (λ q. refl, refl)))
  travel_loop_lem h {l} (suc k) us ((p, v) ∷ ws) is fuel =
      let w = (op v).1 in
      let g = rewritten us p v ws is w in
      let is' : IsList g l (us ++ (p, w) ∷ ws) = IsList-rewritten us p v ws is w in
      rw (not_head us p v ws is, apply_op_at op us p v ws is)
        (elim (Bool-cases (is_break (op v).0)) [
          | inl stop ↦ rw stop (returns (is', (λ q. refl, refl)))
          | inr more ↦
              rw (more, get_next_at us p w ws is')
                (mono
                  (travel_loop_lem g k (us ++ (p, w) ∷ []) ws (IsList-shift us p w ws is')
                    (omega arith))
                  λ _ g' (kept, same). (IsList-unshift us p w (travelled ws) kept, same))
        ])

  -- On a well-formed list, with more fuel than it has nodes, `llist_travel` calls `op` on each element in order until it returns LLIST_TRAVEL_BREAK, lets it
  -- rewrite the elements in place, and leaves the later elements and all nodes alone.
  pub llist_travel_lem :
      {h : Heap D} {l : Llist} {xs : Cells D} (fuel : ℕ)
      → IsList h l xs
      → length xs < fuel
      → Returns (λ _ g. IsList g l (travelled xs) × SameNodes h g) (llist_travel fuel l op h)
  unfolding llist_travel
  llist_travel_lem {h} {xs} fuel is enough =
      rw (get_next_of_head is) (travel_loop_lem h fuel [] xs is enough)
