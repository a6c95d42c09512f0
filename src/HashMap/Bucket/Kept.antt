-- ===== src/HashMap/Bucket/Kept.antt =====
-- One list of hash_map.cpp: its keys stay distinct, and how its length changes.
use gittest.Prelude.{
  suc, ◌≡◌, ◌≢◌, ◌∙◌, refl, ap, inl, inr, Bool, false, none, List, [], ◌∷◌, ◌++◌, length,
  Bool-cases,
}
use gittest.Prelude.Int.{ℤ}
use gittest.LinkList.{is_zero}
use gittest.HashMap.{Entry, find_entry, store_value, delete_entry}
use gittest.HashMap.Bucket.{
  IsKeyTest, lookup, HasDistinctKeys, eq_of, eq_self, skip, missed, append-Replaced,
  store_value-Replaced, delete_entry-Replaced,
}

module _ {K V : Type 0} (eq : K → K → Bool) (equal : K → Entry K V → ℤ)
    (test : IsKeyTest eq equal) where
  eq_turned : (j k : K) → eq k j ≡ false → eq j k ≡ false
  eq_turned j k isnt = elim (Bool-cases (eq j k)) [
    | inl same ↦
        let e = eq_of eq equal test j k same in
        let f = eq_self eq equal test k in let g = ap (eq k) e in cc
    | inr other ↦ other
  ]

  pub append-HasDistinctKeys :
      (k : K) (v : V) (b : List (Entry K V))
      → lookup eq equal test k b ≡ none
      → HasDistinctKeys eq equal test b
      → HasDistinctKeys eq equal test (b ++ record { key = k; value = v } ∷ [])
  unfolding find_entry
  append-HasDistinctKeys k v [] n d = (refl, tt)
  append-HasDistinctKeys k v (e ∷ es) n (f, d) =
      let (isnt, n') = missed eq equal test k e es n in
      let turned = eq_turned e.key k isnt in
      (
        append-Replaced eq equal test k v es n' e.key ∙ rw turned f,
        append-HasDistinctKeys k v es n' d,
      )

  pub store_value-HasDistinctKeys :
      (k : K) (v : V) (b : List (Entry K V))
      → lookup eq equal test k b ≢ none
      → HasDistinctKeys eq equal test b
      → HasDistinctKeys eq equal test (store_value equal k v b)
  unfolding store_value
  store_value-HasDistinctKeys k v [] n d = tt
  store_value-HasDistinctKeys k v (e ∷ es) n (f, d) = elim (Bool-cases (eq k e.key)) [
    | inl is ↦ let t = test.compares k e in rw t (rw is (f, d))
    | inr isnt ↦
        let t = test.compares k e in
        let there : lookup eq equal test k es ≢ none =
          λ n'. n (skip eq equal test k e es isnt ∙ n') in
        let turned = eq_turned e.key k isnt in
        rw t (
          rw isnt (
            store_value-Replaced eq equal test k v es there e.key ∙ rw turned f,
            store_value-HasDistinctKeys k v es there d,
          ))
  ]

  pub delete_entry-HasDistinctKeys :
      (k : K) (b : List (Entry K V))
      → HasDistinctKeys eq equal test b
      → HasDistinctKeys eq equal test (delete_entry equal k b)
  unfolding delete_entry
  delete_entry-HasDistinctKeys k [] d = tt
  delete_entry-HasDistinctKeys k (e ∷ es) (f, d) = elim (Bool-cases (eq k e.key)) [
    | inl is ↦ let t = test.compares k e in rw t (rw is d)
    | inr isnt ↦
        let t = test.compares k e in
        let turned = eq_turned e.key k isnt in
        rw t (
          rw isnt (
            delete_entry-Replaced eq equal test k es d e.key ∙ rw turned f,
            delete_entry-HasDistinctKeys k es d,
          ))
  ]

  pub length-store_value :
      (k : K) (v : V) (b : List (Entry K V)) → length (store_value equal k v b) ≡ length b
  unfolding store_value
  length-store_value k v [] = refl
  length-store_value k v (e ∷ es) = elim (Bool-cases (is_zero (equal k e))) [
    | inl is ↦ rw is refl
    | inr isnt ↦ rw isnt (ap suc (length-store_value k v es))
  ]

  pub length-delete_entry :
      (k : K) (b : List (Entry K V))
      → lookup eq equal test k b ≢ none
      → suc (length (delete_entry equal k b)) ≡ length b
  unfolding delete_entry find_entry
  length-delete_entry k [] n = absurd (n refl)
  length-delete_entry k (e ∷ es) n = elim (Bool-cases (is_zero (equal k e))) [
    | inl is ↦ rw is refl
    | inr isnt ↦ rw isnt (ap suc (length-delete_entry k es (rw isnt at n)))
  ]
