-- ===== src/HashMap/Refine.antt =====
-- hash_map.cpp refines a dictionary.
use gittest.Prelude.{
  ℕ, ◌+◌, ◌-◌, ◌<◌, ◌≡◌, ◌≢◌, ◌∙◌, refl, sym, ap, Bool, true, Option, none, some, List, [], ◌∷◌,
  ◌++◌, length, if◌then◌else◌, arith, length-append, Bool-cases, inl, inr,
}
use gittest.Prelude.Int.{ℤ, pos}
use gittest.HashMap.{
  Entry, InsertMemory, HashMap, hash_map, init, put, insert_in, insert, find, has_key, erase_in,
  erase, value_of, found, find_entry, store_value, delete_entry,
}
use gittest.HashMap.Bucket.{
  IsKeyTest, lookup, HasDistinctKeys, Replaced, append-Replaced, store_value-Replaced,
  delete_entry-Replaced,
}
use gittest.HashMap.Bucket.Kept.{
  append-HasDistinctKeys, store_value-HasDistinctKeys, delete_entry-HasDistinctKeys,
  length-store_value, length-delete_entry,
}
use gittest.HashMap.Table.{
  length_le_size, IsMap, value_at, lookup_at, located, put-IsMap, put-value_at, slot, slot_below,
}
use gittest.HashMap.Dict.{
  empty_dict, code, Call, HasCopies, inserts, finds, has, erases, clears, gets_size, Dict, assign,
  dict_insert, dict_has, dict_erase, dict_answer, dict_run, answer, run,
}
use gittest.HashMap.Clear.{init-IsEmpty, clear-IsEmpty}

module _ {K V : Type 0} (hash_code : K → ℤ) (eq : K → K → Bool) (equal : K → Entry K V → ℤ)
    (test : IsKeyTest eq equal) where
  -- The table holds what the dictionary does.
  record Matches (h : HashMap K V) (d : Dict K V) : Type 0 where
    is_map : IsMap hash_code eq equal test h
    values : (j : K) → value_at hash_code eq equal test h j ≡ d.value_of_key j
    sizes : h.size ≡ d.count

  -- The key's list is replaced.
  put-Matches :
      (k : K) (r : Option V) (b b' : List (Entry K V)) (size count : ℕ) (h : HashMap K V)
      (d : Dict K V)
      → Matches h d
      → h.entry_list (slot hash_code h.capacity k) ≡ some b
      → HasDistinctKeys eq equal test b'
      → Replaced eq equal test k r b b'
      → size + length b ≡ h.size + length b'
      → size ≡ count
      → Matches
          (record (put (slot hash_code h.capacity k) b' h) { size = size })
          (record { value_of_key = assign eq k r d.value_of_key; count = count })
  put-Matches k r b b' size count h d m e dist rep n c =
      let is = m.is_map in
      record {
        is_map =
            put-IsMap hash_code eq equal test (slot hash_code h.capacity k) b b' size h is
              (slot_below hash_code h.capacity k is.ready) e dist n;
        values = λ j.
            put-value_at hash_code eq equal test k r b b' size h e rep j
            ∙ ap (λ l. if eq j k then r else l) (m.values j);
        sizes = c;
      }

  insert_in-Matches :
      (memory : InsertMemory) (k : K) (v : V) (h : HashMap K V) (d : Dict K V)
      (b : List (Entry K V)) (o : Option (Entry K V))
      → memory.key_copy ≡ true
      → memory.value_copy ≡ true
      → Matches h d
      → h.entry_list (slot hash_code h.capacity k) ≡ some b
      → HasDistinctKeys eq equal test b
      → find_entry equal k b ≡ o
      → let q = dict_insert eq memory.node k v d (value_of o) in
        (g : HashMap K V) × (insert_in hash_code equal memory k v h
            (slot hash_code h.capacity k)
            b
            o
          ≡ some (q.0, g))
        × Matches g q.1
  unfolding insert_in
  insert_in-Matches memory k v h d b none kc vc m e dist f = elim (Bool-cases memory.node) [
    | inr no_node ↦ rw (kc, vc, no_node) (h, refl, m)
    | inl node ↦
        let n : lookup eq equal test k b ≡ none = ap value_of f in
        let entry : Entry K V = record { key = k; value = v } in
        let i = slot hash_code h.capacity k in
        rw (kc, vc, node)
          (
            record (put i (b ++ entry ∷ []) h) { size = h.size + 1 },
            refl,
            put-Matches k (some v) b (b ++ entry ∷ []) (h.size + 1) (d.count + 1) h d m e
                (append-HasDistinctKeys eq equal test k v b n dist)
                (append-Replaced eq equal test k v b n)
                (omega (arith, length-append b (entry ∷ []))) (omega (arith, m.sizes)),
          )
  ]
  insert_in-Matches memory k v h d b (some x) kc vc m e dist f =
      let n : lookup eq equal test k b ≢ none = λ l. let g = ap value_of f in cc in
      rw vc (
        put (slot hash_code h.capacity k) (store_value equal k v b) h,
        refl,
        put-Matches k (some v) b (store_value equal k v b) h.size d.count h d m e
            (store_value-HasDistinctKeys eq equal test k v b n dist)
            (store_value-Replaced eq equal test k v b n)
            (omega (arith, length-store_value eq equal test k v b)) m.sizes,
      )

  erase_in-Matches :
      (k : K) (h : HashMap K V) (d : Dict K V) (b : List (Entry K V)) (o : Option (Entry K V))
      → Matches h d
      → h.entry_list (slot hash_code h.capacity k) ≡ some b
      → HasDistinctKeys eq equal test b
      → find_entry equal k b ≡ o
      → let r = erase_in hash_code equal k h (slot hash_code h.capacity k) b o in
        let q = dict_erase eq k d (value_of o) in (r.0 ≡ q.0) × Matches r.1 q.1
  unfolding erase_in
  erase_in-Matches k h d b none m e dist f = (refl, m)
  erase_in-Matches k h d b (some x) m e dist f =
      let n : lookup eq equal test k b ≢ none = λ l. let g = ap value_of f in cc in
      let is = m.is_map in
      let l = length-delete_entry eq equal test k b n in
      let long =
        length_le_size hash_code eq equal test (slot hash_code h.capacity k) b h is
          (slot_below hash_code h.capacity k is.ready) e in
      (
        refl,
        put-Matches k none b (delete_entry equal k b) (h.size - 1) (d.count - 1) h d m e
            (delete_entry-HasDistinctKeys eq equal test k b dist)
            (delete_entry-Replaced eq equal test k b dist) (omega (arith, l, long))
            (omega (arith, m.sizes)),
      )

  found_has : (o : Option (Entry K V)) → found o ≡ dict_has eq (value_of o)
  found_has none = refl
  found_has (some e) = refl

  -- One call: the table is defined, answers as the dictionary does, and matches it again.
  answer_lem :
      (c : Call K V) (h : HashMap K V) (d : Dict K V)
      → Matches h d
      → HasCopies (c ∷ [])
      → (g : HashMap K V) × (answer hash_code equal c h ≡ some ((dict_answer eq c d).0, g))
        × Matches g (dict_answer eq c d).1
  unfolding insert find has_key erase
  answer_lem (inserts memory none v) h d m copies = (h, refl, m)
  answer_lem (inserts memory (some k) none) h d m copies = (h, refl, m)
  answer_lem (inserts memory (some k) (some v)) h d m (kc, vc, _) =
      let (b, e, at, dist) = located hash_code eq equal test k h m.is_map in
      let o = find_entry equal k b in
      let (g, r, m') = insert_in-Matches memory k v h d b o kc vc m at dist refl in
      let there : d.value_of_key k ≡ value_of o =
        sym (m.values k) ∙ ap (lookup_at hash_code eq equal test k) at in
      rw e (rw there (rw r (g, refl, m')))
  answer_lem (finds k) h d m copies =
      let (b, e, at, _) = located hash_code eq equal test k h m.is_map in
      let there = sym (m.values k) ∙ ap (lookup_at hash_code eq equal test k) at in
      rw e (rw there (h, refl, m))
  answer_lem (has k) h d m copies =
      let (b, e, at, _) = located hash_code eq equal test k h m.is_map in
      let there = sym (m.values k) ∙ ap (lookup_at hash_code eq equal test k) at in
      rw e (rw there (h, ap (λ x. some (code x, h)) (found_has (find_entry equal k b)), m))
  answer_lem (erases k) h d m copies =
      let (b, e, at, dist) = located hash_code eq equal test k h m.is_map in
      let o = find_entry equal k b in
      let (r, g) = erase_in-Matches k h d b o m at dist refl in
      let there : d.value_of_key k ≡ value_of o =
        sym (m.values k) ∙ ap (lookup_at hash_code eq equal test k) at in
      let after = (erase_in hash_code equal k h (slot hash_code h.capacity k) b o).1 in
      rw e (rw there (after, ap (λ x. some (code x, after)) r, g))
  answer_lem clears h d m copies =
      let (g, e, empty) = clear-IsEmpty hash_code eq equal test h m.is_map in
      rw e
        (g, refl, record { is_map = empty.is_map; values = empty.nothing; sizes = empty.no_size })
  answer_lem gets_size h d m copies = (h, ap (λ n. some (code (pos n), h)) m.sizes, m)

  HasCopies-cons :
      (c : Call K V) (cs : List (Call K V)) → HasCopies (c ∷ cs) → HasCopies (c ∷ []) × HasCopies cs
  HasCopies-cons (inserts memory none v) cs h = (tt, h)
  HasCopies-cons (inserts memory (some k) none) cs h = (tt, h)
  HasCopies-cons (inserts memory (some k) (some v)) cs (kc, vc, h) = ((kc, vc, tt), h)
  HasCopies-cons (finds k) cs h = (tt, h)
  HasCopies-cons (has k) cs h = (tt, h)
  HasCopies-cons (erases k) cs h = (tt, h)
  HasCopies-cons clears cs h = (tt, h)
  HasCopies-cons gets_size cs h = (tt, h)

  run_lem :
      (cs : List (Call K V)) (h : HashMap K V) (d : Dict K V)
      → Matches h d
      → HasCopies cs
      → (g : HashMap K V) × (run hash_code equal cs h ≡ some ((dict_run eq cs d).0, g))
        × Matches g (dict_run eq cs d).1
  unfolding run dict_run
  run_lem [] h d m copies = (h, refl, m)
  run_lem (c ∷ cs) h d m copies =
      let (now, later) = HasCopies-cons c cs copies in
      let (g, e, m') = answer_lem c h d m now in
      let (g', f, m'') = run_lem cs g (dict_answer eq c d).1 m' later in rw e (rw f (g', refl, m''))

  -- Let `equal` return 0 on the entry of its key and on no other, let there be at least one list, and let
  -- `init` and the copies of the keys and values that are inserted have memory. `init` returns 0, and any
  -- sequence of calls of `insert` (with or without memory for a new node, null pointers included), `find`,
  -- `has_key`, `erase`, `clear` and `get_size` is defined and gives what a dictionary gives: the value
  -- last inserted for an equal key and not erased or cleared since, and the number of the keys that have
  -- one; an `insert` without memory for its node returns -1 and inserts nothing.
  pub hash_map_refines :
      (capacity : ℕ) (memory : ℕ → Bool) (cs : List (Call K V))
      → 0 < capacity
      → ((j : ℕ) → j < capacity → memory j ≡ true)
      → HasCopies cs
      → let r = init memory (hash_map {K = K} {V = V} capacity) in
        (r.0 ≡ pos 0)
        × ((g : HashMap K V) × (run hash_code equal cs r.1
              ≡ some ((dict_run eq cs (empty_dict {K = K} {V = V})).0, g)))
  hash_map_refines capacity memory cs p m copies =
      let (z, empty) = init-IsEmpty hash_code eq equal test capacity memory p m in
      let start : Matches (init memory (hash_map {K = K} {V = V} capacity)).1 empty_dict = record {
        is_map = empty.is_map;
        values = empty.nothing;
        sizes = empty.no_size;
      } in
      let (g, e, _) =
        run_lem cs (init memory (hash_map {K = K} {V = V} capacity)).1 empty_dict start copies in
      (z, (g, e))
