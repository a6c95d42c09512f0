-- ===== src/HashMap.antt =====
-- hash_map.cpp and hash_map.h: a hash table whose entries are kept in lists of link_list.c.
-- A list is the sequence of its elements, as the theorems on `llist_find`, `llist_insert`, `llist_delet` and
-- `llist_clear` describe what these do; keys and values are what the copies hold.
pub mod Index
pub mod Bucket
pub mod Table
pub mod Dict
pub mod Clear
pub mod Refine
use gittest.Prelude.{
  ℕ, zero, suc, ◌+◌, ◌-◌, ◌%◌, Bool, true, false, Option, none, some, List, [], ◌∷◌, ◌++◌, length,
  ◌==◌, ◌&&◌, if◌then◌else◌,
}
use gittest.Prelude.Partial.{◌>>=◌}
use gittest.Prelude.Int.{ℤ, pos, negsuc}
use gittest.LinkList.{is_zero, minus_one}

-- `int % int`, which rounds towards 0.
abbrev pub remainder : ℤ → ℕ → ℤ
remainder (pos h) capacity = pos (h % capacity)
remainder (negsuc h) capacity = let r = suc h % capacity in if r == 0 then pos 0 else negsuc (r - 1)

-- `if (entry_index < 0) entry_index += capacity`
abbrev pub shifted : ℕ → ℤ → ℕ
shifted capacity (pos r) = r
shifted capacity (negsuc r) = capacity - suc r

-- The number of a key's list; a division by 0 before `init`.
pub entry_index : ℤ → ℕ → Option ℕ
entry_index hash_code capacity =
    if capacity == 0 then none else some (shifted capacity (remainder hash_code capacity))

-- Which calls of `malloc` that an `insert` may make are given memory: for the copies of the key and of the
-- value, and for the node in `llist_insert`.
pub record InsertMemory : Type 0 where
  pub key_copy : Bool
  pub value_copy : Bool
  pub node : Bool

module _ (K V : Type 0) where
  pub record Entry : Type 0 where
    pub key : K
    pub value : V

  -- `entryList[i]` is `none` where there is no list.
  pub record HashMap : Type 0 where
    pub size : ℕ
    pub capacity : ℕ
    pub capacity_tmp : ℕ
    pub entry_list : ℕ → Option (List Entry)

module _ {K V : Type 0} where
  abbrev pub hashmap_key_get : Entry K V → K
  hashmap_key_get e = e.key

  -- The constructor; its loop runs up to a capacity of 0.
  pub hash_map : ℕ → HashMap K V
  hash_map capacity = record {
    size = 0;
    capacity = 0;
    capacity_tmp = capacity;
    entry_list = λ i. none;
  }

  abbrev pub put : ℕ → List (Entry K V) → HashMap K V → HashMap K V
  put i b h = record h { entry_list = λ j. if j == i then some b else h.entry_list j }

  -- The loop of `init`; `memory` says which calls of `llist_creat` are given memory.
  creat_lists : ℕ → ℕ → (ℕ → Bool) → HashMap K V → ℤ × HashMap K V
  creat_lists zero i memory h = (pos 0, h)
  creat_lists (suc k) i memory h =
      if memory i then creat_lists k (i + 1) memory (put i [] h) else (minus_one, h)

  -- `malloc` of the array, whose result is not checked, is taken to give memory.
  pub init : (ℕ → Bool) → HashMap K V → ℤ × HashMap K V
  unfolding creat_lists
  init memory h = creat_lists h.capacity_tmp 0 memory (record h { capacity = h.capacity_tmp })

  module _ (equal : K → Entry K V → ℤ) where
    -- The entry at which `llist_find` stops.
    pub find_entry : K → List (Entry K V) → Option (Entry K V)
    find_entry key [] = none
    find_entry key (e ∷ es) = if is_zero (equal key e) then some e else find_entry key es

    -- `e->value`, through the pointer to that entry.
    pub store_value : K → V → List (Entry K V) → List (Entry K V)
    store_value key value [] = []
    store_value key value (e ∷ es) =
        if is_zero (equal key e)
        then record e { value = value } ∷ es
        else e ∷ store_value key value es

    -- The entries without that one.
    pub delete_entry : K → List (Entry K V) → List (Entry K V)
    delete_entry key [] = []
    delete_entry key (e ∷ es) = if is_zero (equal key e) then es else e ∷ delete_entry key es

  abbrev pub value_of : Option (Entry K V) → Option V
  value_of none = none
  value_of (some e) = some e.value

  abbrev pub found : Option (Entry K V) → ℤ
  found none = pos 0
  found (some e) = pos 1

  module _ (hash_code : K → ℤ) (equal : K → Entry K V → ℤ) where
    -- The key's list, and its number.
    pub find_list : K → HashMap K V → Option (ℕ × List (Entry K V))
    find_list key h = do i ← entry_index (hash_code key) h.capacity; b ← h.entry_list i; some (i, b)

    -- What `insert` does, as `llist_find` has found an entry or not. The results of `malloc` for the copies are
    -- not checked: `memcpy` to a null pointer is undefined. `llist_insert` without memory is seen.
    insert_in :
        InsertMemory
        → K
        → V
        → HashMap K V
        → ℕ
        → List (Entry K V)
        → Option (Entry K V)
        → Option (ℤ × HashMap K V)
    insert_in memory key value h i b none =
        if memory.key_copy && memory.value_copy
        then (if memory.node
            then some (
              pos 0,
              record (put i (b ++ record { key = key; value = value } ∷ []) h) {
                size = h.size + 1;
              },
            )
            else some (minus_one, h))
        else none
    insert_in memory key value h i b (some e) =
        if memory.value_copy then some (pos 0, put i (store_value equal key value b) h) else none

    -- A key or a value may be a null pointer.
    pub insert : InsertMemory → Option K → Option V → HashMap K V → Option (ℤ × HashMap K V)
    unfolding insert_in
    insert memory none value h = some (minus_one, h)
    insert memory (some key) none h = some (minus_one, h)
    insert memory (some key) (some value) h = do
      l ← find_list key h
      insert_in memory key value h l.0 l.1 (find_entry equal key l.1)

    pub find : K → HashMap K V → Option (Option V)
    find key h = do l ← find_list key h; some (value_of (find_entry equal key l.1))

    pub has_key : K → HashMap K V → Option ℤ
    has_key key h = do l ← find_list key h; some (found (find_entry equal key l.1))

    erase_in : K → HashMap K V → ℕ → List (Entry K V) → Option (Entry K V) → ℤ × HashMap K V
    erase_in key h i b none = (minus_one, h)
    erase_in key h i b (some e) =
        (pos 0, record (put i (delete_entry equal key b) h) { size = h.size - 1 })

    pub erase : K → HashMap K V → Option (ℤ × HashMap K V)
    unfolding erase_in
    erase key h = do l ← find_list key h; some (erase_in key h l.0 l.1 (find_entry equal key l.1))

  -- `llist_clear` of a null pointer would be a fault.
  clear_loop : ℕ → ℕ → HashMap K V → Option (HashMap K V)
  clear_loop zero i h = some h
  clear_loop (suc k) i h = do
    b ← h.entry_list i
    clear_loop k (i + 1) (record (put i [] h) { size = h.size - length b })

  pub clear : HashMap K V → Option (HashMap K V)
  unfolding clear_loop
  clear h = clear_loop h.capacity 0 h

  -- The entries that `llist_destroy` gives to `node_destroy`.
  destroy_loop : ℕ → ℕ → HashMap K V → Option (List (Entry K V))
  destroy_loop zero i h = some []
  destroy_loop (suc k) i h = do
    b ← h.entry_list i
    rest ← destroy_loop k (suc i) h
    some (b ++ rest)

  -- The destructor: the entries whose keys and values it frees. Before `init` there are none; `none` is what an
  -- `init` that failed leaves, where the array holds pointers that were never stored.
  pub destroy : HashMap K V → Option (List (Entry K V))
  unfolding destroy_loop
  destroy h = destroy_loop h.capacity 0 h

  abbrev pub get_size : HashMap K V → ℕ
  get_size h = h.size
