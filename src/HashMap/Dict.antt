-- ===== src/HashMap/Dict.antt =====
-- A client of hash_map.cpp, and what it may expect: a dictionary with a value or nothing for each key,
-- and the number of the keys that have one.
use gittest.Prelude.{ℕ, ◌≡◌, true, ◌+◌, ◌-◌, Bool, Option, none, some, List, [], ◌∷◌, if◌then◌else◌}
use gittest.Prelude.Partial.{◌>>=◌}
use gittest.Prelude.Int.{ℤ, pos}
use gittest.LinkList.{minus_one}
use gittest.HashMap.{Entry, InsertMemory, HashMap, insert, find, has_key, erase, clear, get_size}

-- A call of a public function; `insert` may be given null pointers, and memory or none.
pub data Call (K V : Type 0) : Type 0 where
  inserts : InsertMemory → Option K → Option V → Call K V
  finds : K → Call K V
  has : K → Call K V
  erases : K → Call K V
  clears : Call K V
  gets_size : Call K V

-- The copies that the inserts make have memory; a new node need not.
abbrev pub HasCopies : {K V : Type 0} → List (Call K V) → Type 0
HasCopies [] = Unit
HasCopies (inserts memory (some k) (some v) ∷ cs) =
    (memory.key_copy ≡ true) × (memory.value_copy ≡ true) × HasCopies cs
HasCopies (inserts memory none v ∷ cs) = HasCopies cs
HasCopies (inserts memory (some k) none ∷ cs) = HasCopies cs
HasCopies (finds k ∷ cs) = HasCopies cs
HasCopies (has k ∷ cs) = HasCopies cs
HasCopies (erases k ∷ cs) = HasCopies cs
HasCopies (clears ∷ cs) = HasCopies cs
HasCopies (gets_size ∷ cs) = HasCopies cs

-- What the caller gets.
pub data Answer (V : Type 0) : Type 0 where
  code : ℤ → Answer V
  value : Option V → Answer V

pub record Dict (K V : Type 0) : Type 0 where
  pub value_of_key : K → Option V
  pub count : ℕ

abbrev pub empty_dict : {K V : Type 0} → Dict K V
empty_dict = record { value_of_key = λ k. none; count = 0 }

module _ {K V : Type 0} (eq : K → K → Bool) where
  abbrev pub assign : K → Option V → (K → Option V) → K → Option V
  assign k r f j = if eq j k then r else f j

  -- The dictionary's answers. An `insert` without memory for a node fails only for a new key.
  abbrev pub dict_insert : Bool → K → V → Dict K V → Option V → ℤ × Dict K V
  dict_insert node k v d none =
      if node
      then (pos 0, record { value_of_key = assign k (some v) d.value_of_key; count = d.count + 1 })
      else (minus_one, d)
  dict_insert node k v d (some old) =
      (pos 0, record d { value_of_key = assign k (some v) d.value_of_key })

  abbrev pub dict_has : Option V → ℤ
  dict_has none = pos 0
  dict_has (some v) = pos 1

  abbrev pub dict_erase : K → Dict K V → Option V → ℤ × Dict K V
  dict_erase k d none = (minus_one, d)
  dict_erase k d (some old) =
      (pos 0, record { value_of_key = assign k none d.value_of_key; count = d.count - 1 })

  abbrev coded : ℤ × Dict K V → Answer V × Dict K V
  coded r = (code r.0, r.1)

  abbrev pub dict_answer : Call K V → Dict K V → Answer V × Dict K V
  dict_answer (inserts memory none v) d = (code minus_one, d)
  dict_answer (inserts memory (some k) none) d = (code minus_one, d)
  dict_answer (inserts memory (some k) (some v)) d =
      coded (dict_insert memory.node k v d (d.value_of_key k))
  dict_answer (finds k) d = (value (d.value_of_key k), d)
  dict_answer (has k) d = (code (dict_has (d.value_of_key k)), d)
  dict_answer (erases k) d = coded (dict_erase k d (d.value_of_key k))
  dict_answer clears d = (code (pos 0), record { value_of_key = λ k. none; count = 0 })
  dict_answer gets_size d = (code (pos d.count), d)

  unfoldable pub dict_run : List (Call K V) → Dict K V → List (Answer V) × Dict K V
  dict_run [] d = ([], d)
  dict_run (c ∷ cs) d =
      let (a, d') = dict_answer c d in let (rest, d'') = dict_run cs d' in (a ∷ rest, d'')

module _ {K V : Type 0} (hash_code : K → ℤ) (equal : K → Entry K V → ℤ) where
  abbrev coded_of : ℤ × HashMap K V → Answer V × HashMap K V
  coded_of r = (code r.0, r.1)

  -- The same calls of the table; `none` is undefined behaviour.
  abbrev pub answer : Call K V → HashMap K V → Option (Answer V × HashMap K V)
  answer (inserts memory k v) h = do r ← insert hash_code equal memory k v h; some (coded_of r)
  answer (finds k) h = do v ← find hash_code equal k h; some (value v, h)
  answer (has k) h = do r ← has_key hash_code equal k h; some (code r, h)
  answer (erases k) h = do r ← erase hash_code equal k h; some (coded_of r)
  answer clears h = do g ← clear h; some (code (pos 0), g)
  answer gets_size h = some (code (pos (get_size h)), h)

  unfoldable pub run : List (Call K V) → HashMap K V → Option (List (Answer V) × HashMap K V)
  run [] h = some ([], h)
  run (c ∷ cs) h = do r ← answer c h; s ← run cs r.1; some (r.0 ∷ s.0, s.1)
