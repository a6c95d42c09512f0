-- ===== src/HashMap/Bucket.antt =====
-- One list of hash_map.cpp: what storing, appending and removing do to what is found in it.
pub mod Kept
pub mod InMemory
use gittest.Prelude.{
  ℕ, suc, ◌+◌, ◌≡◌, ◌≢◌, ◌↔◌, ◌∙◌, refl, sym, ap, inl, inr, Bool, true, false, Option, none, some,
  List, [], ◌∷◌, ◌++◌, length, if◌then◌else◌, arith, Bool-cases, Option-cases,
}
use gittest.Prelude.Int.{ℤ}
use gittest.LinkList.{is_zero}
use gittest.HashMap.{Entry, hashmap_key_get, find_entry, store_value, delete_entry, value_of}

-- What is asked of the user's comparison: it returns 0 exactly on the entry's own key. `eq` decides that.
pub record IsKeyTest {K V : Type 0} (eq : K → K → Bool) (equal : K → Entry K V → ℤ) : Type 0 where
  pub decides : (j k : K) → (eq j k ≡ true) ↔ (j ≡ k)
  pub compares : (k : K) (e : Entry K V) → is_zero (equal k e) ≡ eq k (hashmap_key_get e)

module _ {K V : Type 0} (eq : K → K → Bool) (equal : K → Entry K V → ℤ)
    (test : IsKeyTest eq equal) where
  abbrev pub lookup : K → List (Entry K V) → Option V
  lookup j b = value_of (find_entry equal j b)

  -- No key stands twice.
  abbrev pub HasDistinctKeys : List (Entry K V) → Type 0
  HasDistinctKeys [] = Unit
  HasDistinctKeys (e ∷ es) = (lookup e.key es ≡ none) × HasDistinctKeys es

  pub eq_of : (j k : K) → eq j k ≡ true → j ≡ k
  eq_of j k = (test.decides j k).0

  pub eq_self : (k : K) → eq k k ≡ true
  eq_self k = (test.decides k k).1 refl

  lookup-cons :
      (j : K) (e : Entry K V) (es : List (Entry K V))
      → lookup j (e ∷ es) ≡ (if eq j e.key then some e.value else lookup j es)
  unfolding find_entry
  lookup-cons j e es = elim (Bool-cases (eq j e.key)) [
    | inl is ↦ let t = test.compares j e in rw t (rw is refl)
    | inr isnt ↦ let t = test.compares j e in rw t (rw isnt refl)
  ]

  pub hit :
      (j : K) (e : Entry K V) (es : List (Entry K V))
      → eq j e.key ≡ true
      → lookup j (e ∷ es) ≡ some e.value
  hit j e es is = lookup-cons j e es ∙ rw is refl

  pub skip :
      (j : K) (e : Entry K V) (es : List (Entry K V))
      → eq j e.key ≡ false
      → lookup j (e ∷ es) ≡ lookup j es
  skip j e es isnt = lookup-cons j e es ∙ rw isnt refl

  differs : (j k x : K) → eq k x ≡ false → eq j x ≡ true → eq j k ≡ false
  differs j k x isnt is = elim (Bool-cases (eq j k)) [
    | inl same ↦ let e = eq_of j k same in let f = ap (λ y. eq y x) e in cc
    | inr other ↦ other
  ]

  -- `b'` holds what `b` does but for `k`, at which it holds `r`.
  abbrev pub Replaced : K → Option V → List (Entry K V) → List (Entry K V) → Type 0
  Replaced k r b b' = (j : K) → lookup j b' ≡ (if eq j k then r else lookup j b)

  -- An entry with another key in front makes no difference.
  behind :
      (k : K) (r : Option V) (e : Entry K V) (b b' : List (Entry K V))
      → eq k e.key ≡ false
      → Replaced k r b b'
      → Replaced k r (e ∷ b) (e ∷ b')
  behind k r e b b' isnt h j = elim (Bool-cases (eq j e.key)) [
    | inl is ↦ let d = differs j k e.key isnt is in rw d (hit j e b' is ∙ sym (hit j e b is))
    | inr away ↦ skip j e b' away ∙ h j ∙ ap (λ l. if eq j k then r else l) (sym (skip j e b away))
  ]

  pub missed :
      (k : K) (e : Entry K V) (es : List (Entry K V))
      → lookup k (e ∷ es) ≡ none
      → (eq k e.key ≡ false) × (lookup k es ≡ none)
  missed k e es n = elim (Bool-cases (eq k e.key)) [
    | inl is ↦ let h = hit k e es is in absurd (cc)
    | inr isnt ↦ (isnt, sym (skip k e es isnt) ∙ n)
  ]

  -- Appending an entry whose key is not there.
  pub append-Replaced :
      (k : K) (v : V) (b : List (Entry K V))
      → lookup k b ≡ none
      → Replaced k (some v) b (b ++ record { key = k; value = v } ∷ [])
  append-Replaced k v [] n = λ j. lookup-cons j (record { key = k; value = v }) []
  append-Replaced k v (e ∷ es) n =
      let (isnt, n') = missed k e es n in
      behind k (some v) e es (es ++ record { key = k; value = v } ∷ []) isnt
        (append-Replaced k v es n')

  key_of : (j k x : K) → eq k x ≡ true → eq j x ≡ eq j k
  key_of j k x is = ap (eq j) (sym (eq_of k x is))

  -- Storing a value at a key that is there.
  pub store_value-Replaced :
      (k : K) (v : V) (b : List (Entry K V))
      → lookup k b ≢ none
      → Replaced k (some v) b (store_value equal k v b)
  unfolding store_value find_entry
  store_value-Replaced k v [] n = absurd (n refl)
  store_value-Replaced k v (e ∷ es) n = elim (Bool-cases (eq k e.key)) [
    | inl is ↦
        let t = test.compares k e in
        rw t (
          rw is (λ j.
            lookup-cons j (record { key = e.key; value = v }) es
            ∙ rw (key_of j k e.key is) (elim (Bool-cases (eq j k)) [
              | inl same ↦ rw same refl
              | inr other ↦
                  let away = key_of j k e.key is ∙ other in rw other (sym (skip j e es away))
            ])))
    | inr isnt ↦
        let t = test.compares k e in
        rw t (
          rw isnt (
            behind k (some v) e es (store_value equal k v es) isnt
              (store_value-Replaced k v es (λ n'. n (skip k e es isnt ∙ n')))))
  ]

  -- Removing a key.
  pub delete_entry-Replaced :
      (k : K) (b : List (Entry K V))
      → HasDistinctKeys b
      → Replaced k none b (delete_entry equal k b)
  unfolding delete_entry find_entry
  delete_entry-Replaced k [] d =
      λ j. elim (Bool-cases (eq j k)) [ inl is ↦ rw is refl | inr isnt ↦ rw isnt refl ]
  delete_entry-Replaced k (e ∷ es) (n, d) = elim (Bool-cases (eq k e.key)) [
    | inl is ↦
        let t = test.compares k e in
        rw t (
          rw is (λ j. elim (Bool-cases (eq j k)) [
            | inl same ↦ let at = eq_of j k same ∙ eq_of k e.key is in rw same (rw at n)
            | inr other ↦
                let away = key_of j k e.key is ∙ other in rw other (sym (skip j e es away))
          ]))
    | inr isnt ↦
        let t = test.compares k e in
        rw t (
          rw isnt
            (behind k none e es (delete_entry equal k es) isnt (delete_entry-Replaced k es d)))
  ]
