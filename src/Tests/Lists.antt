-- ===== src/Tests/Lists.antt =====
-- The lists of link_list.c, queue.c and stack.c: a list of two nodes in a small memory.
use gittest.Prelude.{
  ℕ, ◌+◌, ◌≡◌, ◌≢◌, refl, Bool, true, false, ◌||◌, none, some, List, [], ◌∷◌, arith, ◌==◌,
  if◌then◌else◌,
}
use gittest.Prelude.Int.{ℤ, pos}
use gittest.LinkList.{
  Llist, llist_delet, llist_fetch, llist_check, llist_travel_delete, llist_destroy,
}
use gittest.LinkList.Memory.{Ptr, null, Heap, Allocator}
use gittest.LinkList.Chain.{Cells, has}
use gittest.LinkList.Invariant.{IsList, Returns}
use gittest.LinkList.Find.{matching}
use gittest.LinkList.Remove.{Deleted, Fetched, delet_lem, fetch_lem}
use gittest.LinkList.Sweep.{Swept, llist_check_lem, llist_travel_delete_lem}
use gittest.LinkList.Clear.{llist_destroy_lem}
use gittest.Container.{Op, put, take}
use gittest.Container.Client.{Explained, run}
use gittest.Queue.Refine.{snoc, queue_container, queue_run-Explained}
use gittest.Stack.Refine.{push_front, stack_container, stack_run-Explained}

-- The head at 1, the elements 7 and 8 at 2 and 3.
abbrev memory : Heap ℕ
memory = record {
  live = λ p. (p == 1) || (p == 2) || (p == 3);
  prev = λ p.
      if p == 1 then some 3 else (if p == 2 then some 1 else (if p == 3 then some 2 else none));
  next = λ p.
      if p == 1 then some 2 else (if p == 2 then some 3 else (if p == 3 then some 1 else none));
  content = λ p. if p == 2 then some 7 else (if p == 3 then some 8 else none);
  calls = [];
}

abbrev two : Llist
two = record { size = 8; head = 1 }

abbrev cells : Cells ℕ
cells = (2, 7) ∷ (3, 8) ∷ []

abbrev two_cells : IsList memory two cells
two_cells = record {
  head_live = refl;
  chain = (refl, refl, refl, refl, (refl, refl, refl, refl, (refl, refl)));
  distinct = (refl, (refl, tt));
  off_head = refl;
}

-- An allocator with two free addresses.
abbrev place : Bool → Bool → Ptr
place false b = 4
place true false = 5
place true true = null

place_fresh_by :
    (live : Ptr → Bool) (a b : Bool)
    → live 4 ≡ a
    → live 5 ≡ b
    → place a b ≢ null
    → live (place a b) ≡ false
place_fresh_by live false b e f ne = e
place_fresh_by live true false e f ne = f
place_fresh_by live true true e f ne = absurd (ne refl)

place_fresh :
    (live : Ptr → Bool) → place (live 4) (live 5) ≢ null → live (place (live 4) (live 5)) ≡ false
place_fresh live ne = place_fresh_by live (live 4) (live 5) refl refl ne

abbrev small : Allocator ℕ
small = record { malloc = λ h. place (h.live 4) (h.live 5); fresh = λ h. place_fresh h.live }

abbrev same : ℕ → ℕ → ℤ
same k d = if k == d then pos 0 else pos 1

-- A callback that adds one, and asks to stop at 9.
abbrev grow : ℕ → ℤ × ℕ
grow d = (if d == 8 then pos 1 else pos 0, d + 1)

delet_lem_example :
    Returns
      (Deleted memory two (matching 8 same) cells true (some (3, 8)))
      (llist_delet 3 two 8 same true memory)
delet_lem_example = delet_lem 3 8 same two_cells (omega arith) true

fetch_lem_example :
    Returns
      (Fetched memory two (matching 7 same) cells (some (2, 7)))
      (llist_fetch 3 two 7 same memory)
fetch_lem_example = fetch_lem 3 7 same two_cells (omega arith)

-- The callback keeps 7 and drops 8.
abbrev keep_seven : ℕ → ℤ × ℕ
keep_seven d = (if d == 7 then pos 1 else pos 0, d)

llist_check_lem_example :
    Returns
      (λ r g. (r ≡ pos 2) × Swept memory two ((2, 7) ∷ []) ((3, 8) ∷ []) false g)
      (llist_check 3 (some two) (some keep_seven) memory)
llist_check_lem_example = llist_check_lem 3 (some keep_seven) two_cells (omega arith)

llist_travel_delete_lem_example :
    Returns
      (λ _ g. Swept memory two ((3, 9) ∷ []) ((2, 8) ∷ []) true g)
      (llist_travel_delete 3 (some two) grow 8 same true memory)
llist_travel_delete_lem_example = llist_travel_delete_lem grow 8 same 3 true two_cells (omega arith)

llist_destroy_lem_example :
    Returns
      (λ _ g.
        ((q : Ptr) → g.live q ≡ (if (q == 1) || has q cells then false else memory.live q))
        × (g.calls ≡ 7 ∷ 8 ∷ []))
      (llist_destroy 3 (some two) true memory)
llist_destroy_lem_example = llist_destroy_lem 3 true two_cells (omega arith)

-- Three calls on a container that holds 7 and 8.
abbrev calls : List (Op ℕ)
calls = take ∷ put 6 ∷ take ∷ []

queue_run-Explained_example :
    Returns
      (Explained small snoc (queue_container small) two (7 ∷ 8 ∷ []) calls)
      (run small snoc (queue_container small) 6 two calls memory)
queue_run-Explained_example = queue_run-Explained small 6 calls two_cells (omega arith)

stack_run-Explained_example :
    Returns
      (Explained small push_front (stack_container small) two (7 ∷ 8 ∷ []) calls)
      (run small push_front (stack_container small) 6 two calls memory)
stack_run-Explained_example = stack_run-Explained small 6 calls two_cells (omega arith)
