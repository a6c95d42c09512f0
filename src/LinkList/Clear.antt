-- ===== src/LinkList/Clear.antt =====
-- `llist_clear` and `llist_destroy`: every node is freed once, and `node_op` sees each element.
use gittest.Prelude.{
  ℕ, zero, suc, ◌+◌, ◌≡◌, ◌<◌, refl, Bool, true, false, some, List, [], ◌∷◌, ◌++◌, arith, ◌==◌,
  ◌||◌, if◌then◌else◌, length, ◌∙◌,
}
use mathlib.Core.List.{append-nil, append_assoc}
use gittest.LinkList.{Llist, notify, clear_loop, llist_clear, destroy_loop, llist_destroy}
use gittest.LinkList.Memory.{Ptr, Heap, ok, get_next, get_content, set_next, set_prev, free, call}
use gittest.LinkList.Chain.{Cells, has, Distinct, first, Links, Links-first, Links-frame}
use gittest.LinkList.Invariant.{IsList, Returns, returns, mono, bind}
use gittest.LinkList.Cursor.{get_next_of_head, freed, called}
use gittest.LinkList.Remove.{self_eq}

module _ {D : Type 0} where
  abbrev pub elements : Cells D → List D
  elements [] = []
  elements ((p, v) ∷ xs) = v ∷ elements xs

  -- What `node_op` is called on while the nodes `xs` are freed.
  abbrev pub calls_on : Bool → Cells D → List D
  calls_on node_op xs = if node_op then elements xs else []

  -- Exactly the nodes `xs` are freed, and `node_op` has been called on their elements in order.
  pub record Emptied (h : Heap D) (xs : Cells D) (node_op : Bool) (g : Heap D) : Type 0 where
    pub dead : (q : Ptr) → g.live q ≡ (if has q xs then false else h.live q)
    pub calls : g.calls ≡ h.calls ++ calls_on node_op xs
    pub links : (g.next ≡ h.next) × (g.prev ≡ h.prev) × (g.content ≡ h.content)

  Emptied-nil : (h : Heap D) (node_op : Bool) → Emptied h [] node_op h
  Emptied-nil h true = record {
    dead = λ q. refl;
    calls = rw append-nil;
    links = (refl, refl, refl);
  }
  Emptied-nil h false = record {
    dead = λ q. refl;
    calls = rw append-nil;
    links = (refl, refl, refl);
  }

  -- The heap after one round of the loops.
  abbrev dropped : Heap D → Bool → Ptr → D → Heap D
  dropped h node_op p v = freed (called h (h.calls ++ (if node_op then v ∷ [] else []))) p

  Emptied-cons :
      (h g : Heap D) (node_op : Bool) (p : Ptr) (v : D) (xs : Cells D)
      → Emptied (dropped h node_op p v) xs node_op g
      → Emptied h ((p, v) ∷ xs) node_op g
  Emptied-cons h g true p v xs e = record {
    dead = λ q. ground (arith, e.dead q);
    calls = e.calls ∙ append_assoc h.calls (v ∷ []) (elements xs);
    links = e.links;
  }
  Emptied-cons h g false p v xs e = record {
    dead = λ q. ground (arith, e.dead q);
    calls = e.calls ∙ append_assoc h.calls [] [];
    links = e.links;
  }

  module _ (h : Heap D) (a b p : Ptr) (v : D) (xs : Cells D) (c : Links h a ((p, v) ∷ xs) b) where
    next_of : get_next p h ≡ ok (first xs b) h
    unfolding get_next
    next_of = ground (arith, Links-first h p b xs c.4)

    notified :
        (node_op : Bool)
        → notify node_op p h ≡ ok tt (called h (h.calls ++ (if node_op then v ∷ [] else [])))
    unfolding get_content call
    notified true = ground arith
    notified false = rw append-nil

    free_run : (ds : List D) → free p (called h ds) ≡ ok tt (freed (called h ds) p)
    unfolding free
    free_run ds = rw c.2

    Links-dropped : (node_op : Bool) → has p xs ≡ false → Links (dropped h node_op p v) p xs b
    Links-dropped node_op out =
        Links-frame h (dropped h node_op p v) p b xs c.4 refl refl
          (λ q i. (ground arith, refl, refl, refl))

  clear_loop_lem :
      (h : Heap D) (a b : Ptr) (k n : ℕ) (node_op : Bool) (xs : Cells D)
      → Links h a xs b
      → Distinct xs
      → has b xs ≡ false
      → length xs < k
      → Returns
          (λ r g. (r ≡ n + length xs) × Emptied h xs node_op g)
          (clear_loop k node_op b (first xs b) n h)
  unfolding clear_loop
  clear_loop_lem h a b zero n node_op xs c d out fuel = absurd (omega arith)
  clear_loop_lem h a b (suc k) n node_op [] c d out fuel =
      rw (self_eq b) (returns (omega arith, Emptied-nil h node_op))
  clear_loop_lem h a b (suc k) n node_op ((p, v) ∷ xs) c d out fuel =
      let ne : (p == b) ≡ false = ground arith in
      rw (ne, next_of h a b p v xs c, notified h a b p v xs c node_op, free_run h a b p v xs c _)
        (mono
          (clear_loop_lem (dropped h node_op p v) p b k (n + 1) node_op xs
            (Links-dropped h a b p v xs c node_op d.0) d.1 (ground arith) (omega arith))
          λ r g (e, m). (omega arith, Emptied-cons h g node_op p v xs m))

  destroy_loop_lem :
      (h : Heap D) (a b : Ptr) (k : ℕ) (node_op : Bool) (xs : Cells D)
      → Links h a xs b
      → Distinct xs
      → has b xs ≡ false
      → length xs < k
      → Returns (λ _ g. Emptied h xs node_op g) (destroy_loop k node_op b (first xs b) h)
  unfolding destroy_loop
  destroy_loop_lem h a b zero node_op xs c d out fuel = absurd (omega arith)
  destroy_loop_lem h a b (suc k) node_op [] c d out fuel =
      rw (self_eq b) (returns (Emptied-nil h node_op))
  destroy_loop_lem h a b (suc k) node_op ((p, v) ∷ xs) c d out fuel =
      let ne : (p == b) ≡ false = ground arith in
      rw (ne, next_of h a b p v xs c, notified h a b p v xs c node_op, free_run h a b p v xs c _)
        (mono
          (destroy_loop_lem (dropped h node_op p v) p b k node_op xs
            (Links-dropped h a b p v xs c node_op d.0) d.1 (ground arith) (omega arith))
          λ _ g m. Emptied-cons h g node_op p v xs m)

  -- On a well-formed list, with more fuel than it has nodes, `llist_clear` frees exactly the nodes of the list, returns their number, calls `node_op`, if it
  -- is set, on each element in order, and leaves an empty list that can be used again.
  pub llist_clear_lem :
      {h : Heap D} {l : Llist} {xs : Cells D} (fuel : ℕ) (node_op : Bool)
      → IsList h l xs
      → length xs < fuel
      → Returns
          (λ n g.
            (n ≡ length xs)
            × IsList g l []
            × ((q : Ptr) → g.live q ≡ (if has q xs then false else h.live q))
            × (g.calls ≡ h.calls ++ calls_on node_op xs))
          (llist_clear fuel l node_op h)
  unfolding llist_clear set_next set_prev
  llist_clear_lem {h} {l} {xs} fuel node_op is enough = rw (get_next_of_head is) (
      bind
        (clear_loop_lem h l.head l.head fuel 0 node_op xs is.chain is.distinct is.off_head enough)
        λ n g (count, m).
          let alive : g.live l.head ≡ true =
            ground (arith, m.dead l.head, is.off_head, is.head_live) in
          rw (alive, alive)
            (returns (
              omega arith,
              record {
                head_live = alive;
                chain = (ground arith, ground arith);
                distinct = tt;
                off_head = refl;
              },
              m.dead,
              m.calls,
            )))

  -- On a well-formed list, with more fuel than it has nodes, `llist_destroy` calls `node_op`, if it is
  -- set, on each element in order, and frees the nodes and the head, and nothing else.
  pub llist_destroy_lem :
      {h : Heap D} {l : Llist} {xs : Cells D} (fuel : ℕ) (node_op : Bool)
      → IsList h l xs
      → length xs < fuel
      → Returns
          (λ _ g.
            ((q : Ptr) → g.live q ≡ (if (q == l.head) || has q xs then false else h.live q))
            × (g.calls ≡ h.calls ++ calls_on node_op xs))
          (llist_destroy fuel (some l) node_op h)
  unfolding llist_destroy free
  llist_destroy_lem {h} {l} {xs} fuel node_op is enough = rw (get_next_of_head is) (
      bind
        (destroy_loop_lem h l.head l.head fuel node_op xs is.chain is.distinct is.off_head enough)
        λ _ g m.
          let alive : g.live l.head ≡ true =
            ground (arith, m.dead l.head, is.off_head, is.head_live) in
          rw alive (returns (λ q. ground (arith, m.dead q), m.calls)))
