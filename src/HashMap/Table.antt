-- ===== src/HashMap/Table.antt =====
-- The table of hash_map.cpp as a whole: its invariant, and the change of one list.
use gittest.Prelude.{
  ℕ, zero, suc, ◌+◌, ◌<◌, ◌≤◌, ◌≡◌, ◌∙◌, refl, ap, inl, inr, Bool, false, Option, none, some, List,
  [], length, if◌then◌else◌, arith, Bool-cases, ◌==◌, ==_iff,
}
use gittest.Prelude.Int.{ℤ}
use gittest.HashMap.{Entry, HashMap, entry_index, remainder, shifted, find_list, put}
use gittest.HashMap.Index.{entry_index_lem}
use gittest.HashMap.Bucket.{IsKeyTest, lookup, HasDistinctKeys, Replaced, eq_of}

module _ {K V : Type 0} where
  abbrev pub length_at : Option (List (Entry K V)) → ℕ
  length_at none = 0
  length_at (some b) = length b

  -- The entries in the first `n` lists.
  unfoldable pub total : ℕ → (ℕ → Option (List (Entry K V))) → ℕ
  total zero f = 0
  total (suc n) f = total n f + length_at (f n)

  total-put_above :
      (n i : ℕ) (b : List (Entry K V)) (h : HashMap K V)
      → n ≤ i
      → total n (put i b h).entry_list ≡ total n h.entry_list
  unfolding total
  total-put_above zero i b h le = refl
  total-put_above (suc n) i b h le =
      let other : (n == i) ≡ false = ground arith in
      let ih = total-put_above n i b h (omega (arith, le)) in rw other (rw ih refl)

  pub total-put :
      (n i : ℕ) (b : List (Entry K V)) (h : HashMap K V)
      → i < n
      → total n (put i b h).entry_list + length_at (h.entry_list i)
        ≡ total n h.entry_list + length b
  unfolding total
  total-put zero i b h lt = absurd (omega (arith, lt))
  total-put (suc n) i b h lt = elim (Bool-cases (n == i)) [
    | inl is ↦
        let e : n ≡ i = (==_iff n i).0 is in
        let above = total-put_above n i b h (omega (arith, e)) in
        let same = ap (λ j. length_at (h.entry_list j)) e in rw is (omega (arith, above, same))
    | inr isnt ↦ let ih = total-put n i b h (ground arith) in rw isnt (omega (arith, ih))
  ]

-- The number of the key's list where there are lists.
abbrev pub slot : {K : Type 0} → (K → ℤ) → ℕ → K → ℕ
slot hash_code capacity key = shifted capacity (remainder (hash_code key) capacity)

pub slot_below :
    {K : Type 0} (hash_code : K → ℤ) (capacity : ℕ) (key : K)
    → 0 < capacity
    → slot hash_code capacity key < capacity
unfolding entry_index
slot_below hash_code c key p =
    let (i, e, small, _) = entry_index_lem (hash_code key) c p in
    let nz : (c == 0) ≡ false = ground arith in
    let f : some (slot hash_code c key) ≡ some i = rw nz at e in
    let g : slot hash_code c key ≡ i = cc in rw g small

module _ {K V : Type 0} (hash_code : K → ℤ) (eq : K → K → Bool) (equal : K → Entry K V → ℤ)
    (test : IsKeyTest eq equal) where
  -- After `init`: each of the lists is there and has no key twice, and `size` counts the entries.
  pub record IsMap (h : HashMap K V) : Type 0 where
    pub ready : 0 < h.capacity
    pub lists :
        (i : ℕ)
        → i < h.capacity
        → (b : List (Entry K V)) × (h.entry_list i ≡ some b) × HasDistinctKeys eq equal test b
    pub counted : h.size ≡ total h.capacity h.entry_list

  abbrev pub lookup_at : K → Option (List (Entry K V)) → Option V
  lookup_at k none = none
  lookup_at k (some b) = lookup eq equal test k b

  -- What the table holds at a key.
  abbrev pub value_at : HashMap K V → K → Option V
  value_at h k = lookup_at k (h.entry_list (slot hash_code h.capacity k))

  -- The list in which a key is looked up.
  pub located :
      (k : K) (h : HashMap K V)
      → IsMap h
      → (b : List (Entry K V)) × (find_list hash_code equal k h
          ≡ some (slot hash_code h.capacity k, b))
        × (h.entry_list (slot hash_code h.capacity k) ≡ some b)
        × HasDistinctKeys eq equal test b
  unfolding find_list entry_index
  located k h is =
      let ready = is.ready in
      let (b, e, d) =
        is.lists (slot hash_code h.capacity k) (slot_below hash_code h.capacity k ready) in
      let nz : (h.capacity == 0) ≡ false = ground arith in (b, rw nz (rw e refl), e, d)

  -- A list is replaced.
  pub put-IsMap :
      (i : ℕ) (b b' : List (Entry K V)) (size : ℕ) (h : HashMap K V)
      → IsMap h
      → i < h.capacity
      → h.entry_list i ≡ some b
      → HasDistinctKeys eq equal test b'
      → size + length b ≡ h.size + length b'
      → IsMap (record (put i b' h) { size = size })
  put-IsMap i b b' size h is small e d n = record {
    ready = is.ready;
    lists = λ j below. elim (Bool-cases (j == i)) [
      | inl same ↦ rw same (b', refl, d)
      | inr other ↦ rw other (is.lists j below)
    ];
    counted =
        let c = total-put h.capacity i b' h small in
        let l = ap length_at e in omega (arith, c, l, n, is.counted);
  }

  pub length_le_size :
      (i : ℕ) (b : List (Entry K V)) (h : HashMap K V)
      → IsMap h
      → i < h.capacity
      → h.entry_list i ≡ some b
      → length b ≤ h.size
  length_le_size i b h is small e =
      let c = total-put h.capacity i [] h small in
      let l = ap length_at e in omega (arith, c, l, is.counted)

  -- The key's list is replaced by one that differs at this key.
  pub put-value_at :
      (k : K) (r : Option V) (b b' : List (Entry K V)) (size : ℕ) (h : HashMap K V)
      → h.entry_list (slot hash_code h.capacity k) ≡ some b
      → Replaced eq equal test k r b b'
      → (j : K)
      → value_at (record (put (slot hash_code h.capacity k) b' h) { size = size }) j
        ≡ (if eq j k then r else value_at h j)
  put-value_at k r b b' size h e replaced j =
      let c = h.capacity in
      elim (Bool-cases (slot hash_code c j == slot hash_code c k)) [
        | inl same ↦
            let s : slot hash_code c j ≡ slot hash_code c k =
              (==_iff (slot hash_code c j) (slot hash_code c k)).0 same in
            let there : value_at h j ≡ lookup eq equal test j b =
              ap (λ i. lookup_at j (h.entry_list i)) s ∙ ap (lookup_at j) e in
            let here : (put (slot hash_code c k) b' h).entry_list (slot hash_code c j) ≡ some b' =
              rw same refl in
            rw there (ap (lookup_at j) here ∙ replaced j)
        | inr other ↦
            let d : eq j k ≡ false = elim (Bool-cases (eq j k)) [
              | inl is ↦
                  absurd
                    (let f = ap (slot hash_code c) (eq_of eq equal test j k is) in ground arith)
              | inr isnt ↦ isnt
            ] in
            let there : (put (slot hash_code c k) b' h).entry_list (slot hash_code c j)
                ≡ h.entry_list (slot hash_code c j) =
              rw other refl in
            rw d (ap (lookup_at j) there)
      ]
