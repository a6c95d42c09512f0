-- ===== src/LinkList/Cursor.antt =====
-- What link_list.c meets when a walk stands at a node of a well-formed list, and what the
-- operations on that node make of the list.
use gittest.Prelude.{◌≡◌, refl, true, false, some, List, [], ◌∷◌, ◌++◌, arith, ◌==◌}
use gittest.LinkList.{Llist, unlink, unlink_next_first}
use gittest.LinkList.Memory.{
  Ptr, Heap, ok, update, get_next, get_prev, get_content, set_next, set_prev, set_content,
}
use gittest.LinkList.Chain.{
  Cells, has, Distinct, first, last, Links, Links-first, Links-frame, SameAt, has-append,
}
use gittest.LinkList.Chain.Edit.{bypass, Links-bypass}
use gittest.LinkList.Invariant.{IsList, Links-split, Links-join, Distinct-split, Distinct-join}

module _ {D : Type 0} where
  pub first_live :
      (h : Heap D) (a b : Ptr) (xs : Cells D)
      → Links h a xs b
      → h.live b ≡ true
      → h.live (first xs b) ≡ true
  first_live h a b [] c e = e
  first_live h a b ((p, v) ∷ xs) c e = c.2

  pub last_live :
      (h : Heap D) (a b : Ptr) (xs : Cells D)
      → Links h a xs b
      → h.live a ≡ true
      → h.live (last a xs) ≡ true
  last_live h a b [] c e = e
  last_live h a b ((p, v) ∷ xs) c e = last_live h p b xs c.4 c.2

  pub IsList-frame :
      {h : Heap D} {l : Llist} {xs : Cells D} (g : Heap D)
      → IsList h l xs
      → SameAt h g l.head
      → ((q : Ptr) → has q xs ≡ true → SameAt h g q)
      → IsList g l xs
  IsList-frame {h} {l} {xs} g is same_head same = record {
    head_live = ground (arith, is.head_live);
    chain = Links-frame h g l.head l.head xs is.chain same_head.2 same_head.1 same;
    distinct = is.distinct;
    off_head = is.off_head;
  }

  -- `free` of what is no node of the list.
  abbrev pub freed : Heap D → Ptr → Heap D
  freed h p = record h { live = update h.live p false }

  abbrev pub called : Heap D → List D → Heap D
  called h ds = record h { calls = ds }

  pub IsList-freed :
      {h : Heap D} {l : Llist} {xs : Cells D} (p : Ptr)
      → IsList h l xs
      → has p xs ≡ false
      → (p == l.head) ≡ false
      → IsList (freed h p) l xs
  IsList-freed {h} {l} p is out ne =
      IsList-frame (freed h p) is (ground arith, refl, refl, refl)
        (λ q i. (ground arith, refl, refl, refl))

  pub IsList-called :
      {h : Heap D} {l : Llist} {xs : Cells D} (ds : List D)
      → IsList h l xs
      → IsList (called h ds) l xs
  IsList-called {h} ds is =
      IsList-frame (called h ds) is (refl, refl, refl, refl) (λ q i. (refl, refl, refl, refl))

  -- The walk starts at the first node.
  pub get_next_of_head :
      {h : Heap D} {l : Llist} {xs : Cells D}
      → IsList h l xs
      → get_next l.head h ≡ ok (first xs l.head) h
  unfolding get_next
  get_next_of_head {h} {l} {xs} is =
      ground (arith, is.head_live, Links-first h l.head l.head xs is.chain)

-- The walk stands at `p`, with `us` behind it and `ws` before it.
module _ {D : Type 0} {h : Heap D} {l : Llist} (us : Cells D) (p : Ptr) (v : D) (ws : Cells D)
    (is : IsList h l (us ++ (p, v) ∷ ws)) where
  pub parts : Links h l.head us p × (h.live p ≡ true) × (h.content p ≡ some v) × Links h p ws l.head
  parts = Links-split h l.head p l.head v us ws is.chain

  apart : Distinct (us ++ ws) × (has p (us ++ ws) ≡ false)
  apart = Distinct-split p v us ws is.distinct

  outside :
      (has l.head (us ++ ws) ≡ false)
      × ((p == l.head) ≡ false)
      × (has p ws ≡ false)
      × (has p us ≡ false)
  outside = ground (
    arith,
    is.off_head,
    has-append l.head us ((p, v) ∷ ws),
    has-append l.head us ws,
    has-append p us ws,
    apart.1,
  )

  pub not_head : (p == l.head) ≡ false
  not_head = outside.1

  pub off_rest : has p (us ++ ws) ≡ false
  off_rest = apart.1

  pub get_next_at : get_next p h ≡ ok (first ws l.head) h
  unfolding get_next
  get_next_at = ground (arith, parts, Links-first h p l.head ws parts.3)

  pub get_content_at : get_content p h ≡ ok v h
  unfolding get_content
  get_content_at = ground (arith, parts)

  -- The heap after the node is unlinked.
  abbrev pub without : Heap D
  without = bypass h (last l.head us) (first ws l.head)

  neighbours :
      (h.prev p ≡ some (last l.head us))
      × (h.live (last l.head us) ≡ true)
      × (h.next p ≡ some (first ws l.head))
      × (h.live (first ws l.head) ≡ true)
      × ((p == first ws l.head) ≡ false)
      × (h.live p ≡ true)
  neighbours = (
    prev_of us parts.0,
    last_live h l.head p us parts.0 is.head_live,
    Links-first h p l.head ws parts.3,
    first_live h p l.head ws parts.3 is.head_live,
    ne ws outside.2,
    parts.1,
  )
    where
      prev_of : (xs : Cells D) → Links h l.head xs p → h.prev p ≡ some (last l.head xs)
      prev_of xs c = at xs l.head c
        where
          at : (xs : Cells D) (a : Ptr) → Links h a xs p → h.prev p ≡ some (last a xs)
          at [] a c = c.1
          at ((x, w) ∷ xs) a c = at xs x c.4

      ne : (xs : Cells D) → has p xs ≡ false → (p == first xs l.head) ≡ false
      ne [] o = outside.1
      ne ((x, w) ∷ xs) o = ground arith

  pub unlink_at : unlink p h ≡ ok tt without
  unfolding unlink get_next get_prev set_next set_prev
  unlink_at = ground (arith, neighbours)

  pub unlink_next_first_at : unlink_next_first p h ≡ ok tt without
  unfolding unlink_next_first get_next get_prev set_next set_prev
  unlink_next_first_at = ground (arith, neighbours)

  pub IsList-without : IsList without l (us ++ ws)
  IsList-without = record {
    head_live = is.head_live;
    chain = Links-bypass h l.head p l.head us ws parts.0 parts.3 apart.0 outside.0 outside.0;
    distinct = apart.0;
    off_head = outside.0;
  }

  abbrev pub rewritten : D → Heap D
  rewritten w = record h { content = update h.content p (some w) }

  pub set_content_at : (w : D) → set_content p w h ≡ ok tt (rewritten w)
  unfolding set_content
  set_content_at w = ground (arith, parts)

  pub IsList-rewritten : (w : D) → IsList (rewritten w) l (us ++ (p, w) ∷ ws)
  IsList-rewritten w = record {
    head_live = is.head_live;
    chain =
        Links-join (rewritten w) l.head p l.head w us ws
          (Links-frame h (rewritten w) l.head p us parts.0 refl refl
            (λ q i. (refl, refl, refl, ground (arith, outside))))
          parts.1 (ground arith)
          (Links-frame h (rewritten w) p l.head ws parts.3 refl refl
            (λ q i. (refl, refl, refl, ground (arith, outside))));
    distinct = Distinct-join p w us ws apart.0 apart.1;
    off_head = ground (
      arith,
      is.off_head,
      has-append l.head us ((p, v) ∷ ws),
      has-append l.head us ((p, w) ∷ ws),
    );
  }
