-- ===== src/LinkList/Find.antt =====
-- `find__` and `llist_find`: the first element that matches, against a search of the contents.
use gittest.Prelude.{
  ℕ, zero, suc, ◌≡◌, ◌<◌, Bool, false, refl, Option, none, some, [], ◌∷◌, ◌++◌, arith, ◌==◌,
  if◌then◌else◌, length, Bool-cases, inl, inr,
}
use gittest.Prelude.Int.{ℤ}
use mathlib.Core.List.{append_assoc}
use gittest.LinkList.{Llist, is_zero, find_loop, find_node, llist_find}
use gittest.LinkList.Memory.{Ptr, Heap, ok, pure}
use gittest.LinkList.Chain.{Cells, first, has-append}
use gittest.LinkList.Invariant.{IsList}
use gittest.LinkList.Cursor.{get_next_of_head, not_head, get_next_at, get_content_at}

module _ {D : Type 0} (matches : D → Bool) where
  abbrev pub first_match : Cells D → Option (Ptr × D)
  first_match [] = none
  first_match ((p, v) ∷ xs) = if matches v then some (p, v) else first_match xs

  abbrev pub remove_first : Cells D → Cells D
  remove_first [] = []
  remove_first ((p, v) ∷ xs) = if matches v then xs else (p, v) ∷ remove_first xs

  -- Where a search succeeds, the cells split at the match, and removing it joins the two parts.
  pub first_match-split :
      (xs : Cells D) (p : Ptr) (v : D)
      → first_match xs ≡ some (p, v)
      → (us : Cells D) × (ws : Cells D) × (xs ≡ us ++ (p, v) ∷ ws) × (remove_first xs ≡ us ++ ws)
  first_match-split [] p v e = cc
  first_match-split ((q, w) ∷ xs) p v e = elim (Bool-cases (matches w)) [
    | inl hit ↦ ([], xs, ground arith, ground arith)
    | inr miss ↦
        let (us, ws, e₁, e₂) = first_match-split xs p v (ground arith) in
        ((q, w) ∷ us, ws, cc, ground arith)
  ]

abbrev pub node_of : {D : Type 0} → Ptr → Option (Ptr × D) → Ptr
node_of head none = head
node_of head (some (p, v)) = p

abbrev pub matching : {D K : Type 0} → K → (K → D → ℤ) → D → Bool
matching key cmp d = is_zero (cmp key d)

module _ {D K : Type 0} {h : Heap D} {l : Llist} (key : K) (cmp : K → D → ℤ) where
  find_loop_lem :
      (k : ℕ) (us ws : Cells D)
      → IsList h l (us ++ ws)
      → length ws < k
      → find_loop k key cmp l.head (first ws l.head) h
        ≡ ok (node_of l.head (first_match (matching key cmp) ws)) h
  unfolding find_loop
  find_loop_lem zero us ws is fuel = absurd (omega arith)
  find_loop_lem (suc k) us [] is fuel = ground arith
  find_loop_lem (suc k) us ((p, v) ∷ ws) is fuel = ground (
    arith,
    not_head us p v ws is,
    get_content_at us p v ws is,
    get_next_at us p v ws is,
    find_loop_lem k (us ++ (p, v) ∷ []) ws (rw (append_assoc us ((p, v) ∷ []) ws) is) (omega arith),
  )

  module _ {xs : Cells D} (fuel : ℕ) (is : IsList h l xs) (enough : length xs < fuel) where
    pub find_node_lem :
        find_node fuel l key cmp h ≡ ok (node_of l.head (first_match (matching key cmp) xs)) h
    unfolding find_node
    find_node_lem = rw (get_next_of_head is) (find_loop_lem fuel [] xs is enough)

    -- A match is a node of the list, not the head.
    pub match_ne_head :
        (p : Ptr) (v : D) → first_match (matching key cmp) xs ≡ some (p, v) → (p == l.head) ≡ false
    match_ne_head p v e =
        let (us, ws, e₁, _) = first_match-split (matching key cmp) xs p v e in
        ground (arith, is.off_head, has-append l.head us ((p, v) ∷ ws))

    -- On a well-formed list, with more fuel than it has nodes, `llist_find` gives the node of the first
    -- element that matches the key, NULL if there is none, and writes nothing.
    pub llist_find_lem :
        llist_find fuel l key cmp h
        ≡ ok (elim (first_match (matching key cmp) xs) [ none ↦ none | some (p, v) ↦ some p ]) h
    unfolding llist_find
    llist_find_lem = rw find_node_lem (by (first_match (matching key cmp) xs) match_ne_head)
      where
        by :
            (o : Option (Ptr × D))
            → ((p : Ptr) (v : D) → o ≡ some (p, v) → (p == l.head) ≡ false)
            → (if node_of l.head o == l.head then pure none else pure (some (node_of l.head o))) h
              ≡ ok (elim o [ none ↦ none | some (p, v) ↦ some p ]) h
        by none f = ground arith
        by (some (p, v)) f = ground (arith, f p v refl)
