-- ===== src/Tests/Tables.antt =====
-- The hash table of hash_map.cpp: keys that are their own hash codes or the negation, in two lists.
use gittest.Prelude.{
  ℕ, ◌+◌, ◌*◌, ◌%◌, ◌<◌, ◌≡◌, ◌≢◌, refl, Bool, true, false, ◌||◌, none, some, List, [], ◌∷◌, ◌++◌,
  arith, ◌==◌, ==_iff, if◌then◌else◌,
}
use gittest.Prelude.Int.{ℤ, pos, negsuc}
use gittest.LinkList.{
  Llist, backward, llist_insert, llist_delet, llist_find, llist_clear, minus_one, is_zero,
}
use gittest.LinkList.Memory.{Heap, Allocator, Ptr, null}
use gittest.LinkList.Chain.{Cells}
use gittest.LinkList.Invariant.{IsList, Returns}
use gittest.HashMap.{
  Entry, InsertMemory, HashMap, hash_map, init, entry_index, find_entry, delete_entry,
}
use gittest.HashMap.Index.{entry_index_lem}
use gittest.HashMap.Bucket.{IsKeyTest}
use gittest.HashMap.Bucket.InMemory.{element_at, code_of, Holds, lists_in_memory}
use gittest.HashMap.Dict.{
  dict_run, Call, HasCopies, inserts, finds, has, erases, clears, gets_size, code, value, run,
}
use gittest.HashMap.Refine.{hash_map_refines}

entry_index_lem_example :
    (i : ℕ) × (entry_index (negsuc 6) 4 ≡ some i)
    × (i < 4)
    × ((a b : ℕ) × (0 + a * 4 ≡ 7 + b * 4 + i))
entry_index_lem_example = entry_index_lem (negsuc 6) 4 (omega arith)

abbrev hash_code : ℕ → ℤ
hash_code k = if k % 2 == 0 then pos k else negsuc k

abbrev equal : ℕ → Entry ℕ ℕ → ℤ
equal k e = if k == e.key then pos 0 else minus_one

equal_zero : (k j : ℕ) → is_zero (if k == j then pos 0 else minus_one) ≡ (k == j)
equal_zero k j = ground arith

equal-IsKeyTest : IsKeyTest ◌==◌ equal
equal-IsKeyTest = record { decides = ==_iff; compares = λ k e. equal_zero k e.key }

abbrev plenty : InsertMemory
plenty = record { key_copy = true; value_copy = true; node = true }

abbrev no_node : InsertMemory
no_node = record plenty { node = false }

abbrev calls : List (Call ℕ ℕ)
calls =
    inserts plenty (some 5) (some 50)
    ∷ inserts plenty (some 7) (some 70)
    ∷ inserts no_node (some 5) (some 51)
    ∷ inserts no_node (some 9) (some 90)
    ∷ inserts plenty (some 8) none
    ∷ finds 5
    ∷ erases 7
    ∷ erases 7
    ∷ has 7
    ∷ gets_size
    ∷ clears
    ∷ gets_size
    ∷ []

abbrev copies : HasCopies calls
copies = (refl, refl, (refl, refl, (refl, refl, (refl, refl, tt))))

hash_map_refines_example :
    let r = init (λ j. true) (hash_map {K = ℕ} {V = ℕ} 2) in
    (r.0 ≡ pos 0)
    × ((g : HashMap ℕ ℕ) × (run hash_code equal calls r.1
          ≡ some (
            code (pos 0)
                ∷ code (pos 0)
                ∷ code (pos 0)
                ∷ code minus_one
                ∷ code minus_one
                ∷ value (some 51)
                ∷ code (pos 0)
                ∷ code minus_one
                ∷ code (pos 0)
                ∷ code (pos 1)
                ∷ code (pos 0)
                ∷ code (pos 0)
                ∷ [],
            g,
          )))
unfolding dict_run
hash_map_refines_example =
    hash_map_refines hash_code ◌==◌ equal equal-IsKeyTest 2 (λ j. true) calls (omega arith)
      (λ j l. refl) copies

-- The entries of the keys 5 and 7 at 2 and 3, and room for one more at 4.
abbrev first : Entry ℕ ℕ
first = record { key = 5; value = 50 }

abbrev second : Entry ℕ ℕ
second = record { key = 7; value = 70 }

abbrev memory : Heap (Entry ℕ ℕ)
memory = record {
  live = λ p. (p == 1) || (p == 2) || (p == 3);
  prev = λ p.
      if p == 1 then some 3 else (if p == 2 then some 1 else (if p == 3 then some 2 else none));
  next = λ p.
      if p == 1 then some 2 else (if p == 2 then some 3 else (if p == 3 then some 1 else none));
  content = λ p. if p == 2 then some first else (if p == 3 then some second else none);
  calls = [];
}

abbrev bucket : Llist
bucket = record { size = 16; head = 1 }

abbrev cells : Cells (Entry ℕ ℕ)
cells = (2, first) ∷ (3, second) ∷ []

abbrev bucket_cells : IsList memory bucket cells
bucket_cells = record {
  head_live = refl;
  chain = (refl, refl, refl, refl, (refl, refl, refl, refl, (refl, refl)));
  distinct = (refl, (refl, tt));
  off_head = refl;
}

-- An allocator with one free address.
abbrev place : Bool → Ptr
place false = 4
place true = null

place_fresh : (live : Ptr → Bool) (b : Bool) → live 4 ≡ b → place b ≢ null → live (place b) ≡ false
place_fresh live false e ne = e
place_fresh live true e ne = absurd (ne refl)

abbrev small : Allocator (Entry ℕ ℕ)
small = record { malloc = λ h. place (h.live 4); fresh = λ h. place_fresh h.live (h.live 4) refl }

abbrev third : Entry ℕ ℕ
third = record { key = 9; value = 90 }

lists_in_memory_example :
    let b = first ∷ second ∷ [] in
    Returns
      (λ r g. (g ≡ memory) × (element_at equal g r ≡ find_entry equal 7 b))
      (llist_find 3 bucket 7 equal memory)
    × Returns
        (λ r g.
          (r ≡ code_of equal (find_entry equal 7 b))
          × Holds equal g bucket (delete_entry equal 7 b))
        (llist_delet 3 bucket 7 equal true memory)
    × Returns
        (λ r g. (r ≡ pos 0) × Holds equal g bucket (b ++ third ∷ []))
        (llist_insert small bucket third backward memory)
    × Returns (λ n g. (n ≡ 2) × Holds equal g bucket []) (llist_clear 3 bucket true memory)
lists_in_memory_example =
    lists_in_memory equal 3 7 bucket_cells (omega arith) small third (λ e. omega (arith, e))
