-- ===== src/LinkList/Chain/Edit.antt =====
-- The two edits of a chain in link_list.c: a node is linked in at a cut, and a node is unlinked.
use gittest.Prelude.{◌≡◌, refl, true, false, ◌||◌, some, [], ◌∷◌, ◌++◌, arith, ◌==◌}
use gittest.LinkList.Memory.{Ptr, Heap, update}
use gittest.LinkList.Chain.{Cells, has, Distinct, first, last, Links, Links-frame, has-append}

module _ {D : Type 0} where
  -- The links of `c` and `n` bypass what stood between them.
  abbrev pub bypass : Heap D → Ptr → Ptr → Heap D
  bypass h c n = record h { next = update h.next c (some n); prev = update h.prev n (some c) }

  -- A node `p` with element `v` is linked in between `c` and `f`.
  abbrev pub linked_in : Heap D → Ptr → Ptr → Ptr → D → Heap D
  linked_in h p c f v = record h {
    live = update h.live p true;
    next = update (update h.next p (some f)) c (some p);
    prev = update (update h.prev p (some c)) f (some p);
    content = update h.content p (some v);
  }

  last_mem : (a : Ptr) (xs : Cells D) → ((last a xs == a) || has (last a xs) xs) ≡ true
  last_mem a [] = ground arith
  last_mem a ((p, v) ∷ xs) = ground (arith, last_mem p xs)

  first_mem : (b : Ptr) (ys : Cells D) → ((first ys b == b) || has (first ys b) ys) ≡ true
  first_mem b [] = ground arith
  first_mem b ((p, v) ∷ ys) = ground arith

  pub Links-bypass :
      (h : Heap D) (a p b : Ptr) (xs ys : Cells D)
      → Links h a xs p
      → Links h p ys b
      → Distinct (xs ++ ys)
      → has a (xs ++ ys) ≡ false
      → has b (xs ++ ys) ≡ false
      → Links (bypass h (last a xs) (first ys b)) a (xs ++ ys) b
  Links-bypass h a p b [] [] l r d ha hb = ground arith
  Links-bypass h a p b [] ((q, w) ∷ ys) l r d ha hb = (
    ground arith,
    ground arith,
    r.2,
    r.3,
    Links-frame h (bypass h a q) q b ys r.4 (ground arith) (ground arith)
        (λ z i. (refl, ground arith, ground arith, refl)),
  )
  Links-bypass h a p b ((x, w) ∷ xs) ys l r d ha hb = (
    ground (arith, last_mem x xs, has-append (last x xs) xs ys),
    ground (arith, first_mem b ys, has-append (first ys b) xs ys, has-append x xs ys),
    l.2,
    l.3,
    Links-bypass h x p b xs ys l.4 r d.1 d.0 (ground arith),
  )

  pub Links-linked_in :
      (h : Heap D) (a b p : Ptr) (v : D) (xs ys : Cells D)
      → Links h a (xs ++ ys) b
      → Distinct (xs ++ ys)
      → has a (xs ++ ys) ≡ false
      → has b (xs ++ ys) ≡ false
      → has p (xs ++ ys) ≡ false
      → (p == a) ≡ false
      → (p == b) ≡ false
      → Links (linked_in h p (last a xs) (first ys b) v) a (xs ++ (p, v) ∷ ys) b
  Links-linked_in h a b p v [] [] l d ha hb hp pa pb = ground arith
  Links-linked_in h a b p v [] ((q, w) ∷ ys) l d ha hb hp pa pb = (
    ground arith,
    ground arith,
    ground arith,
    ground arith,
    (
      ground arith,
      ground arith,
      ground arith,
      ground arith,
      Links-frame h (linked_in h p a q v) q b ys l.4 (ground arith) (ground arith)
          (λ z i. (ground arith, ground arith, ground arith, ground arith)),
    ),
  )
  Links-linked_in h a b p v ((x, w) ∷ xs) ys l d ha hb hp pa pb = (
    ground (arith, last_mem x xs, has-append (last x xs) xs ys),
    ground (arith, first_mem b ys, has-append (first ys b) xs ys),
    ground arith,
    ground arith,
    Links-linked_in h x b p v xs ys l.4 d.1 d.0 (ground arith) (ground arith) (ground arith) pb,
  )
