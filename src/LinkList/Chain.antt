-- ===== src/LinkList/Chain.antt =====
-- What a chain of nodes in memory stands for, and how a store changes it (link_list.c).
pub mod Edit
use gittest.Prelude.{◌≡◌, refl, Bool, true, false, ◌||◌, some, List, [], ◌∷◌, ◌++◌, arith, ◌==◌}
use gittest.LinkList.Memory.{Ptr, Heap}

-- Address and element of each node, in order.
abbrev pub Cells : Type 0 → Type 0
Cells D = List (Ptr × D)

module _ {D : Type 0} where
  abbrev pub has : Ptr → Cells D → Bool
  has a [] = false
  has a ((p, v) ∷ xs) = (a == p) || has a xs

  abbrev pub Distinct : Cells D → Type 0
  Distinct [] = Unit
  Distinct ((p, v) ∷ xs) = (has p xs ≡ false) × Distinct xs

  -- The first address of a chain that ends at `b`, and the last of one that starts behind `a`.
  abbrev pub first : Cells D → Ptr → Ptr
  first [] b = b
  first ((p, v) ∷ xs) b = p

  abbrev pub last : Ptr → Cells D → Ptr
  last a [] = a
  last a ((p, v) ∷ xs) = last p xs

  -- From `a` the `next` fields lead through the nodes `xs` to `b`, and the `prev` fields back.
  abbrev pub Links : Heap D → Ptr → Cells D → Ptr → Type 0
  Links h a [] b = (h.next a ≡ some b) × (h.prev b ≡ some a)
  Links h a ((p, v) ∷ xs) b =
      (h.next a ≡ some p)
      × (h.prev p ≡ some a)
      × (h.live p ≡ true)
      × (h.content p ≡ some v)
      × Links h p xs b

  pub has-append : (a : Ptr) (xs ys : Cells D) → has a (xs ++ ys) ≡ (has a xs || has a ys)
  has-append a [] ys = refl
  has-append a ((p, v) ∷ xs) ys = ground (arith, has-append a xs ys)

  pub Links-first :
      (h : Heap D) (a b : Ptr) (xs : Cells D) → Links h a xs b → h.next a ≡ some (first xs b)
  Links-first h a b [] c = c.0
  Links-first h a b ((p, v) ∷ xs) c = c.0

  -- The two fields at a cut of a chain.
  pub Links-cut :
      (h : Heap D) (a b : Ptr) (xs ys : Cells D)
      → Links h a (xs ++ ys) b
      → (h.next (last a xs) ≡ some (first ys b)) × (h.prev (first ys b) ≡ some (last a xs))
  Links-cut h a b [] [] c = c
  Links-cut h a b [] ((p, v) ∷ ys) c = (c.0, c.1)
  Links-cut h a b ((p, v) ∷ xs) ys c = Links-cut h p b xs ys c.4

  abbrev pub SameAt : Heap D → Heap D → Ptr → Type 0
  SameAt h g q =
      (g.live q ≡ h.live q)
      × (g.prev q ≡ h.prev q)
      × (g.next q ≡ h.next q)
      × (g.content q ≡ h.content q)

  -- A chain survives any change that spares its fields.
  pub Links-frame :
      (h g : Heap D) (a b : Ptr) (xs : Cells D)
      → Links h a xs b
      → g.next a ≡ h.next a
      → g.prev b ≡ h.prev b
      → ((q : Ptr) → has q xs ≡ true → SameAt h g q)
      → Links g a xs b
  Links-frame h g a b [] c ea eb same = ground arith
  Links-frame h g a b ((p, v) ∷ xs) c ea eb same =
      let s = same p (ground arith) in
      (
        ground arith,
        ground arith,
        ground arith,
        ground arith,
        Links-frame h g p b xs c.4 s.2 eb (λ q i. same q (ground arith)),
      )
