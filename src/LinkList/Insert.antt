-- ===== src/LinkList/Insert.antt =====
-- `llist_creat` and `llist_insert`: what they make of memory, on every branch.
use gittest.Prelude.{ℕ, ◌≡◌, ◌≢◌, refl, true, false, none, some, [], ◌∷◌, ◌++◌, arith, ◌==◌}
use gittest.Prelude.Int.{pos}
use mathlib.Core.List.{append-nil}
use gittest.LinkList.{Llist, Mode, forward, backward, other, minus_one, llist_creat, llist_insert}
use gittest.LinkList.Memory.{
  Ptr, null, Heap, ok, fault, update, get_next, get_prev, set_next, set_prev, set_content,
  Allocator, alloc,
}
use gittest.LinkList.Chain.{Cells, has, first, last, Links, Links-first, has-append}
use gittest.LinkList.Chain.Edit.{linked_in, Links-linked_in}
use gittest.LinkList.Invariant.{IsList, Returns, returns, Distinct-join}
use gittest.LinkList.Cursor.{IsList-frame, first_live, last_live}

module _ {D : Type 0} where
  -- The stores of `llist_insert` for a new node `p` between `c` and `f`.
  abbrev placed : Heap D → Ptr → Ptr → Ptr → D → Heap D
  placed h p c f v = record h {
    live = update h.live p true;
    next = update (update (update h.next p none) p (some f)) c (some p);
    prev = update (update (update h.prev p none) p (some c)) f (some p);
    content = update (update h.content p none) p (some v);
  }

  not-has_of_dead :
      (h : Heap D) (a b p : Ptr) (xs : Cells D)
      → Links h a xs b
      → h.live p ≡ false
      → has p xs ≡ false
  not-has_of_dead h a b p [] c dead = refl
  not-has_of_dead h a b p ((x, w) ∷ xs) c dead = ground (arith, not-has_of_dead h x b p xs c.4 dead)

  IsList-placed :
      {h : Heap D} {l : Llist} (xs ys : Cells D) (p : Ptr) (v : D)
      → IsList h l (xs ++ ys)
      → h.live p ≡ false
      → IsList (placed h p (last l.head xs) (first ys l.head) v) l (xs ++ (p, v) ∷ ys)
  IsList-placed {h} {l} xs ys p v is dead =
      let out = not-has_of_dead h l.head l.head p (xs ++ ys) is.chain dead in
      let ne : (p == l.head) ≡ false = ground (arith, is.head_live) in
      IsList-frame {h = linked_in h p (last l.head xs) (first ys l.head) v}
        (placed h p (last l.head xs) (first ys l.head) v)
        (record {
          head_live = ground (arith, is.head_live);
          chain =
              Links-linked_in h l.head l.head p v xs ys is.chain is.distinct is.off_head is.off_head
                out ne ne;
          distinct = Distinct-join p v xs ys is.distinct out;
          off_head =
              ground
                (arith, is.off_head, has-append l.head xs ((p, v) ∷ ys), has-append l.head xs ys);
        })
        (refl, ground arith, ground arith, ground arith)
        (λ q i. (refl, ground arith, ground arith, ground arith))

module _ {D : Type 0} (m : Allocator D) where
  -- `p` is now allocated, and nothing else has been.
  abbrev pub Grown : Heap D → Ptr → Heap D → Type 0
  Grown h p g = ((q : Ptr) → g.live q ≡ update h.live p true q) × (g.calls ≡ h.calls)

  module _ {h : Heap D} {l : Llist} {xs : Cells D} (d : D) (is : IsList h l xs)
      (ne : m.malloc h ≢ null) where
    facts :
        (h.next l.head ≡ some (first xs l.head))
        × (h.live (first xs l.head) ≡ true)
        × (h.prev l.head ≡ some (last l.head xs))
        × (h.live (last l.head xs) ≡ true)
        × (h.live (m.malloc h) ≡ false)
        × (h.live l.head ≡ true)
    facts = (
      Links-first h l.head l.head xs is.chain,
      first_live h l.head l.head xs is.chain is.head_live,
      prev_of xs l.head is.chain,
      last_live h l.head l.head xs is.chain is.head_live,
      m.fresh h ne,
      is.head_live,
    )
      where
        prev_of : (xs : Cells D) (a : Ptr) → Links h a xs l.head → h.prev l.head ≡ some (last a xs)
        prev_of [] a c = c.1
        prev_of ((x, w) ∷ xs) a c = prev_of xs x c.4

    insert_forward_run :
        llist_insert m l d forward h ≡ ok (pos 0) (placed h (m.malloc h) l.head (first xs l.head) d)
    unfolding llist_insert alloc get_next get_prev set_next set_prev set_content
    insert_forward_run = ground (arith, facts)

    insert_backward_run :
        llist_insert m l d backward h ≡ ok (pos 0) (placed h (m.malloc h) (last l.head xs) l.head d)
    unfolding llist_insert alloc get_next get_prev set_next set_prev set_content
    insert_backward_run = ground (arith, facts)

    -- On a well-formed list, and with memory for a node, `llist_insert` with LLIST_FORWARD returns 0,
    -- puts the element at the front of a list that is well-formed again, and allocates that node and
    -- nothing else.
    pub insert_forward :
        Returns
          (λ r g. (r ≡ pos 0) × IsList g l ((m.malloc h, d) ∷ xs) × Grown h (m.malloc h) g)
          (llist_insert m l d forward h)
    insert_forward =
        rw insert_forward_run
          (returns (refl, IsList-placed [] xs (m.malloc h) d is (m.fresh h ne), (λ q. refl, refl)))

    -- On a well-formed list, and with memory for a node, `llist_insert` with LLIST_BACKWARD returns 0,
    -- puts the element at the end of a list that is well-formed again, and allocates that node and
    -- nothing else.
    pub insert_backward :
        Returns
          (λ r g. (r ≡ pos 0) × IsList g l (xs ++ (m.malloc h, d) ∷ []) × Grown h (m.malloc h) g)
          (llist_insert m l d backward h)
    insert_backward = rw insert_backward_run (
        returns (
          refl,
          IsList-placed xs [] (m.malloc h) d (rw append-nil is) (m.fresh h ne),
          (λ q. refl, refl),
        ))

    -- With a `mode` that is neither, the code reads links that were never stored.
    pub insert_other : llist_insert m l d other h ≡ fault
    unfolding llist_insert alloc get_next get_prev set_next set_prev set_content
    insert_other = ground (arith, facts)

  pub insert_fails :
      (h : Heap D) (l : Llist) (d : D) (mode : Mode)
      → m.malloc h ≡ null
      → llist_insert m l d mode h ≡ ok minus_one h
  unfolding llist_insert alloc
  insert_fails h l d mode e = ground arith

  pub creat_fails : (h : Heap D) (size : ℕ) → m.malloc h ≡ null → llist_creat m size h ≡ ok none h
  unfolding llist_creat alloc
  creat_fails h size e = ground arith

  -- With memory for a head, `llist_creat` gives a list of the requested element size at a new address,
  -- well-formed and empty, and allocates nothing else.
  pub creat_lem :
      (h : Heap D) (size : ℕ)
      → m.malloc h ≢ null
      → Returns
          (λ r g.
            (r ≡ some (record { size = size; head = m.malloc h }))
            × IsList g (record { size = size; head = m.malloc h }) []
            × Grown h (m.malloc h) g)
          (llist_creat m size h)
  unfolding llist_creat alloc set_next set_prev
  creat_lem h size ne =
      let p = m.malloc h in
      let run : llist_creat m size h
          ≡ ok (some (record { size = size; head = p })) (record h {
            live = update h.live p true;
            next = update (update h.next p none) p (some p);
            prev = update (update h.prev p none) p (some p);
            content = update h.content p none;
          }) =
        ground arith in
      rw run (
        returns (
          refl,
          record {
            head_live = ground arith;
            chain = (ground arith, ground arith);
            distinct = tt;
            off_head = refl;
          },
          (λ q. refl, refl),
        ))
