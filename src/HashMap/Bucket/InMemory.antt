-- ===== src/HashMap/Bucket/InMemory.antt =====
-- The lists of hash_map.cpp in memory: the functions of link_list.c do to them what the model of the hash
-- table says of their elements.
use gittest.Prelude.{
  ℕ, suc, ◌<◌, ◌≡◌, ◌≢◌, ◌∙◌, refl, sym, ap, inl, inr, Bool, true, Option, none, some, List, [],
  ◌∷◌, ◌++◌, length, Bool-cases,
}
use gittest.Prelude.Int.{ℤ, pos}
use gittest.LinkList.{
  Llist, is_zero, minus_one, backward, llist_find, llist_insert, llist_delet, llist_clear,
}
use gittest.LinkList.Memory.{Ptr, null, Heap, Allocator, ok}
use gittest.LinkList.Chain.{Cells}
use gittest.LinkList.Invariant.{Links-split, IsList, Returns, returns, mono}
use gittest.LinkList.Find.{first_match, remove_first, first_match-split, matching, llist_find_lem}
use gittest.LinkList.Remove.{Deleted, delet_lem}
use gittest.LinkList.Insert.{insert_backward}
use gittest.LinkList.Clear.{elements, llist_clear_lem}
use gittest.HashMap.{Entry, find_entry, delete_entry}

module _ {K V : Type 0} (equal : K → Entry K V → ℤ) where
  abbrev element : Option (Ptr × Entry K V) → Option (Entry K V)
  element none = none
  element (some (p, e)) = some e

  first_match-elements :
      (key : K) (xs : Cells (Entry K V))
      → element (first_match (matching key equal) xs) ≡ find_entry equal key (elements xs)
  unfolding find_entry
  first_match-elements key [] = refl
  first_match-elements key ((p, e) ∷ xs) = elim (Bool-cases (is_zero (equal key e))) [
    | inl hit ↦ rw hit refl
    | inr miss ↦ rw miss (first_match-elements key xs)
  ]

  remove_first-elements :
      (key : K) (xs : Cells (Entry K V))
      → elements (remove_first (matching key equal) xs) ≡ delete_entry equal key (elements xs)
  unfolding delete_entry
  remove_first-elements key [] = refl
  remove_first-elements key ((p, e) ∷ xs) = elim (Bool-cases (is_zero (equal key e))) [
    | inl hit ↦ rw hit refl
    | inr miss ↦ rw miss (ap (λ l. e ∷ l) (remove_first-elements key xs))
  ]

  elements-append :
      (p : Ptr) (e : Entry K V) (xs : Cells (Entry K V))
      → elements (xs ++ (p, e) ∷ []) ≡ elements xs ++ e ∷ []
  elements-append p e [] = refl
  elements-append p e ((q, f) ∷ xs) = ap (λ l. f ∷ l) (elements-append p e xs)

  length-elements : (xs : Cells (Entry K V)) → length (elements xs) ≡ length xs
  length-elements [] = refl
  length-elements ((p, e) ∷ xs) = ap suc (length-elements xs)

  -- What the list at `l` holds.
  abbrev pub Holds : Heap (Entry K V) → Llist → List (Entry K V) → Type 0
  Holds h l b = (xs : Cells (Entry K V)) × IsList h l xs × (elements xs ≡ b)

  -- The element at a result of `llist_find`.
  abbrev pub element_at : Heap (Entry K V) → Option Ptr → Option (Entry K V)
  element_at h none = none
  element_at h (some p) = h.content p

  abbrev pub code_of : Option (Entry K V) → ℤ
  code_of none = minus_one
  code_of (some e) = pos 0

  delete_unmatched :
      (key : K) (b : List (Entry K V))
      → find_entry equal key b ≡ none
      → delete_entry equal key b ≡ b
  unfolding find_entry delete_entry
  delete_unmatched key [] n = refl
  delete_unmatched key (e ∷ es) n = elim (Bool-cases (is_zero (equal key e))) [
    | inl hit ↦ absurd (let f = rw hit at n in cc)
    | inr miss ↦ rw miss (ap (λ l. e ∷ l) (delete_unmatched key es (rw miss at n)))
  ]

  module _ {h : Heap (Entry K V)} {l : Llist} {xs : Cells (Entry K V)} (fuel : ℕ) (key : K)
      (is : IsList h l xs) (enough : length xs < fuel) where
    find_by :
        (o : Option (Ptr × Entry K V))
        → first_match (matching key equal) xs ≡ o
        → Returns
            (λ r g. (g ≡ h) × (element_at g r ≡ find_entry equal key (elements xs)))
            (ok (elim o [ none ↦ none | some (p, v) ↦ some p ]) h)
    find_by none e = returns (refl, ap element (sym e) ∙ first_match-elements key xs)
    find_by (some (p, v)) e =
        let (us, ws, f, _) = first_match-split (matching key equal) xs p v e in
        let is' : IsList h l (us ++ (p, v) ∷ ws) = rw f at is in
        let content = (Links-split h l.head p l.head v us ws is'.chain).2 in
        returns (refl, content ∙ ap element (sym e) ∙ first_match-elements key xs)

    find_Holds :
        Returns
          (λ r g. (g ≡ h) × (element_at g r ≡ find_entry equal key (elements xs)))
          (llist_find fuel l key equal h)
    find_Holds =
        rw (llist_find_lem key equal fuel is enough)
          (find_by (first_match (matching key equal) xs) refl)

    outcome_by :
        (node_op : Bool) (o : Option (Ptr × Entry K V)) (r : ℤ) (g : Heap (Entry K V))
        → first_match (matching key equal) xs ≡ o
        → Deleted h l (matching key equal) xs node_op o r g
        → (r ≡ code_of (find_entry equal key (elements xs)))
          × Holds g l (delete_entry equal key (elements xs))
    outcome_by node_op none r g e (c, same) =
        let n = ap element (sym e) ∙ first_match-elements key xs in
        (c ∙ ap code_of n, (xs, rw same is, sym (delete_unmatched key (elements xs) (sym n))))
    outcome_by node_op (some (p, v)) r g e (c, is', _, _) =
        let n = ap element (sym e) ∙ first_match-elements key xs in
        (
          c ∙ ap code_of n,
          (remove_first (matching key equal) xs, is', remove_first-elements key xs),
        )

    delet_Holds :
        (node_op : Bool)
        → Returns
            (λ r g.
              (r ≡ code_of (find_entry equal key (elements xs)))
              × Holds g l (delete_entry equal key (elements xs)))
            (llist_delet fuel l key equal node_op h)
    delet_Holds node_op =
        mono (delet_lem fuel key equal is enough node_op)
          (λ r g d. outcome_by node_op (first_match (matching key equal) xs) r g refl d)

    -- In a memory in which the list at `l` holds the entries `b`, with more fuel than it has nodes and memory
    -- for one more: `llist_find` gives the address of the entry that `find_entry` finds in `b`, or NULL;
    -- `llist_delet` returns 0 or -1 as there is one, and leaves `delete_entry` of `b`; `llist_insert` at the
    -- back returns 0 and leaves `b` with the entry at its end; and `llist_clear` returns the length of `b` and
    -- leaves no entry.
    pub lists_in_memory :
        (m : Allocator (Entry K V)) (e : Entry K V)
        → m.malloc h ≢ null
        → let b = elements xs in
          Returns
            (λ r g. (g ≡ h) × (element_at g r ≡ find_entry equal key b))
            (llist_find fuel l key equal h)
          × Returns
              (λ r g. (r ≡ code_of (find_entry equal key b)) × Holds g l (delete_entry equal key b))
              (llist_delet fuel l key equal true h)
          × Returns (λ r g. (r ≡ pos 0) × Holds g l (b ++ e ∷ [])) (llist_insert m l e backward h)
          × Returns (λ n g. (n ≡ length b) × Holds g l []) (llist_clear fuel l true h)
    lists_in_memory m e ne = (
      find_Holds,
      delet_Holds true,
      mono (insert_backward m e is ne) (λ r g (c, is', _).
          (c, (xs ++ (m.malloc h, e) ∷ [], is', elements-append (m.malloc h) e xs))),
      mono (llist_clear_lem fuel true is enough)
          (λ n g (c, is', _, _). (c ∙ sym (length-elements xs), ([], is', refl))),
    )
