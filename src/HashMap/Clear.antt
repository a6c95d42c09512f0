-- ===== src/HashMap/Clear.antt =====
-- `init` and `clear` of hash_map.cpp: tables whose lists are all empty.
use gittest.Prelude.{
  ℕ, zero, suc, ◌+◌, ◌-◌, ◌<◌, ◌≡◌, ◌∙◌, refl, sym, ap, inl, inr, Bool, true, none, some, List, [],
  length, length-append, arith, Bool-cases, ◌==◌, ◌++◌,
}
use gittest.Prelude.Int.{ℤ, pos}
use gittest.HashMap.{
  Entry, HashMap, put, creat_lists, init, hash_map, find_entry, destroy_loop, destroy, clear_loop,
  clear,
}
use gittest.HashMap.Bucket.{IsKeyTest}
use gittest.HashMap.Table.{
  lookup_at, IsMap, total, total-put, length_at, put-IsMap, value_at, slot, slot_below,
}

module _ {K V : Type 0} where
  abbrev EmptyBelow : ℕ → HashMap K V → Type 0
  EmptyBelow n h = (j : ℕ) → j < n → h.entry_list j ≡ some []

  empty_total : (n : ℕ) (h : HashMap K V) → EmptyBelow n h → total n h.entry_list ≡ 0
  unfolding total
  empty_total zero h e = refl
  empty_total (suc n) h e =
      let ih = empty_total n h (λ j l. e j (omega (arith, l))) in
      let l = ap length_at (e n (omega arith)) in omega (arith, ih, l)

  -- One more list is empty.
  put_empty : (i : ℕ) (h : HashMap K V) → EmptyBelow i h → EmptyBelow (i + 1) (put i [] h)
  put_empty i h e j l = elim (Bool-cases (j == i)) [
    | inl is ↦ rw is refl
    | inr isnt ↦ rw isnt (e j (ground arith))
  ]

  creat_lists_lem :
      (k i : ℕ) (memory : ℕ → Bool) (h : HashMap K V)
      → ((j : ℕ) → j < i + k → memory j ≡ true)
      → EmptyBelow i h
      → let r = creat_lists k i memory h in
        (r.0 ≡ pos 0) × (r.1.size ≡ h.size) × (r.1.capacity ≡ h.capacity) × EmptyBelow (i + k) r.1
  unfolding creat_lists
  creat_lists_lem zero i memory h m e = (refl, refl, refl, λ j l. e j (omega (arith, l)))
  creat_lists_lem (suc k) i memory h m e =
      let (z, s, c, f) =
        creat_lists_lem k (i + 1) memory (put i [] h) (λ j l. m j (omega (arith, l)))
          (put_empty i h e) in
      rw (m i (omega arith)) (z, s, c, λ j l. f j (omega (arith, l)))

  -- The lists from `i` on, and those before it, hold all entries.
  destroy_loop_lem :
      (k i n : ℕ) (h : HashMap K V)
      → ((j : ℕ) → j < n → (b : List (Entry K V)) × (h.entry_list j ≡ some b))
      → i + k ≡ n
      → (es : List (Entry K V)) × (destroy_loop k i h ≡ some es)
        × (length es + total i h.entry_list ≡ total n h.entry_list)
  unfolding destroy_loop total
  destroy_loop_lem zero i n h lists e =
      let f : i ≡ n = omega (arith, e) in
      let g = ap (λ m. total m h.entry_list) f in ([], refl, omega (arith, g))
  destroy_loop_lem (suc k) i n h lists e =
      let (b, at) = lists i (omega (arith, e)) in
      let (es, f, g) = destroy_loop_lem k (suc i) n h lists (omega (arith, e)) in
      let l = length-append b es in
      let m = ap length_at at in (b ++ es, rw at (rw f refl), omega (arith, g, l, m))

module _ {K V : Type 0} (hash_code : K → ℤ) (eq : K → K → Bool) (equal : K → Entry K V → ℤ)
    (test : IsKeyTest eq equal) where
  -- A table that holds nothing.
  pub record IsEmpty (h : HashMap K V) : Type 0 where
    pub is_map : IsMap hash_code eq equal test h
    pub nothing : (k : K) → value_at hash_code eq equal test h k ≡ none
    pub no_size : h.size ≡ 0

  all_below-IsEmpty :
      (h : HashMap K V) → IsMap hash_code eq equal test h → EmptyBelow h.capacity h → IsEmpty h
  unfolding find_entry
  all_below-IsEmpty h is e = record {
    is_map = is;
    nothing = λ k.
        ap (lookup_at hash_code eq equal test k)
          (e (slot hash_code h.capacity k) (slot_below hash_code h.capacity k is.ready));
    no_size = is.counted ∙ empty_total h.capacity h e;
  }

  -- With memory, `init` of a new table of at least one list returns 0 and gives an empty table.
  pub init-IsEmpty :
      (capacity : ℕ) (memory : ℕ → Bool)
      → 0 < capacity
      → ((j : ℕ) → j < capacity → memory j ≡ true)
      → let r = init memory (hash_map {K = K} {V = V} capacity) in (r.0 ≡ pos 0) × IsEmpty r.1
  unfolding init hash_map
  init-IsEmpty capacity memory p m =
      let start = record (hash_map {K = K} {V = V} capacity) { capacity = capacity } in
      let (z, s, c, e) =
        creat_lists_lem capacity 0 memory start (λ j l. m j (omega (arith, l)))
          (λ j l. absurd (omega (arith, l))) in
      let h = (creat_lists capacity 0 memory start).1 in
      let below : EmptyBelow h.capacity h = λ j l. e j (omega (arith, l, c)) in
      let is : IsMap hash_code eq equal test h = record {
        ready = omega (arith, p, c);
        lists = λ j l. ([], below j l, tt);
        counted = s ∙ sym (empty_total h.capacity h below);
      } in
      (z, all_below-IsEmpty h is below)

  clear_loop_lem :
      (k i : ℕ) (h : HashMap K V)
      → IsMap hash_code eq equal test h
      → i + k ≡ h.capacity
      → EmptyBelow i h
      → (g : HashMap K V) × (clear_loop k i h ≡ some g)
        × IsMap hash_code eq equal test g
        × EmptyBelow g.capacity g
  unfolding clear_loop
  clear_loop_lem zero i h is n e = (h, refl, is, λ j l. e j (omega (arith, l, n)))
  clear_loop_lem (suc k) i h is n e =
      let small : i < h.capacity = omega (arith, n) in
      let (b, at, d) = is.lists i small in
      let c = total-put h.capacity i [] h small in
      let l = ap length_at at in
      let is' =
        put-IsMap hash_code eq equal test i b [] (h.size - length b) h is small at tt
          (omega (arith, c, l, is.counted)) in
      rw at (
        clear_loop_lem k (i + 1) (record (put i [] h) { size = h.size - length b }) is'
          (omega (arith, n)) (put_empty i h e))

  pub clear-IsEmpty :
      (h : HashMap K V)
      → IsMap hash_code eq equal test h
      → (g : HashMap K V) × (clear h ≡ some g) × IsEmpty g
  unfolding clear
  clear-IsEmpty h is =
      let (g, e, is', below) =
        clear_loop_lem h.capacity 0 h is (omega arith) (λ j l. absurd (omega (arith, l))) in
      (g, e, all_below-IsEmpty g is' below)

  -- The destructor frees as many entries as the table counts.
  pub destroy_lem :
      (h : HashMap K V)
      → IsMap hash_code eq equal test h
      → (es : List (Entry K V)) × (destroy h ≡ some es) × (length es ≡ h.size)
  unfolding destroy total
  destroy_lem h is =
      let lists : (j : ℕ) → j < h.capacity → (b : List (Entry K V)) × (h.entry_list j ≡ some b) =
        λ j l. let (b, e, _) = is.lists j l in (b, e) in
      let (es, e, l) = destroy_loop_lem h.capacity 0 h.capacity h lists (omega arith) in
      (es, e, omega (arith, l, is.counted))
