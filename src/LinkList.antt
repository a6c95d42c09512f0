-- ===== src/LinkList.antt =====
-- link_list.c and link_list.h: a circular doubly linked list with a head node inside the LLIST.
-- Each loop `for (cur = head.next; cur != &head; ...)` runs on fuel, the first argument.
pub mod Memory
pub mod Chain
pub mod Invariant
pub mod Cursor
pub mod Insert
pub mod Find
pub mod Remove
pub mod Walk
pub mod Sweep
pub mod Clear
use gittest.Prelude.{ℕ, zero, suc, ◌+◌, Bool, true, false, Option, none, some, ◌==◌, if◌then◌else◌}
use gittest.Prelude.Int.{ℤ, pos, negsuc}
use Memory.{
  Ptr, null, out_of_fuel, Cmd, pure, ◌>>=◌, ◌>>◌, get_next, get_prev, get_content, set_next,
  set_prev, set_content, free, call, Allocator, alloc,
}

-- `LLIST`; `head` is the address `&ptr->head`.
pub record Llist : Type 0 where
  pub size : ℕ
  pub head : Ptr

-- The macros LLIST_FORWARD and LLIST_BACKWARD, and any other value of `mode`.
pub data Mode : Type 0 where
  forward backward other : Mode

-- What the C code tests of an `int`: `!i`, and `LLIST_TRAVEL_BREAK == i`.
abbrev pub is_zero : ℤ → Bool
is_zero (pos n) = n == 0
is_zero (negsuc n) = false

abbrev pub is_break : ℤ → Bool
is_break (pos n) = n == 1
is_break (negsuc n) = false

abbrev pub minus_one : ℤ
minus_one = negsuc 0

-- `if (node_op) node_op(p->data)`; `node_op` says whether the pointer is not NULL.
abbrev pub notify : {D : Type 0} → Bool → Ptr → Cmd D (Unit {0})
notify node_op p = if node_op then (do d ← get_content p; call d) else pure tt

-- `op(p->data)`: the callback may write the element.
abbrev pub apply_op : {D : Type 0} → (D → ℤ × D) → Ptr → Cmd D ℤ
apply_op op p = do d ← get_content p; set_content p (op d).1; pure (op d).0

-- `p->next->prev = p->prev; p->prev->next = p->next`
pub unlink : {D : Type 0} → Ptr → Cmd D (Unit {0})
unlink p = do
  n ← get_next p
  b ← get_prev p
  set_prev n b
  c ← get_prev p
  m ← get_next p
  set_next c m

-- The same two stores in the other order, as `llist_fetch` has them.
pub unlink_next_first : {D : Type 0} → Ptr → Cmd D (Unit {0})
unlink_next_first p = do
  c ← get_prev p
  m ← get_next p
  set_next c m
  n ← get_next p
  b ← get_prev p
  set_prev n b

module _ {D : Type 0} (m : Allocator D) where
  pub llist_creat : ℕ → Cmd D (Option Llist)
  llist_creat size = do
    p ← alloc m
    if p == null
        then pure none
        else do set_next p p; set_prev p p; pure (some (record { size = size; head = p }))

  -- The links of a new node. With any other `mode` they are never stored.
  pub llist_place : Llist → Mode → Ptr → Cmd D (Unit {0})
  llist_place l forward newnode = do
    f ← get_next l.head
    set_next newnode f
    set_prev newnode l.head
  llist_place l backward newnode = do
    set_next newnode l.head
    b ← get_prev l.head
    set_prev newnode b
  llist_place l other newnode = pure tt

  pub llist_insert : Llist → D → Mode → Cmd D ℤ
  unfolding llist_place
  llist_insert l data' mode = do
    newnode ← alloc m
    if newnode == null then pure minus_one else do
      set_content newnode data'
      llist_place l mode newnode
      n ← get_next newnode
      set_prev n newnode
      b ← get_prev newnode
      set_next b newnode
      pure (pos 0)

module _ {D : Type 0} where
  destroy_loop : ℕ → Bool → (head cur : Ptr) → Cmd D (Unit {0})
  destroy_loop zero node_op head cur = λ _. out_of_fuel
  destroy_loop (suc k) node_op head cur =
      if cur == head
      then pure tt
      else do save ← get_next cur; notify node_op cur; free cur; destroy_loop k node_op head save

  pub llist_destroy : ℕ → Option Llist → Bool → Cmd D (Unit {0})
  unfolding destroy_loop
  llist_destroy fuel none node_op = pure tt
  llist_destroy fuel (some l) node_op = do
    cur ← get_next l.head
    destroy_loop fuel node_op l.head cur
    free l.head

  clear_loop : ℕ → Bool → (head cur : Ptr) → ℕ → Cmd D ℕ
  clear_loop zero node_op head cur n = λ _. out_of_fuel
  clear_loop (suc k) node_op head cur n = if cur == head then pure n else do
    save ← get_next cur
    notify node_op cur
    free cur
    clear_loop k node_op head save (n + 1)

  pub llist_clear : ℕ → Llist → Bool → Cmd D ℕ
  unfolding clear_loop
  llist_clear fuel l node_op = do
    cur ← get_next l.head
    n ← clear_loop fuel node_op l.head cur 0
    set_next l.head l.head
    set_prev l.head l.head
    pure n

  travel_loop : ℕ → (D → ℤ × D) → (head cur : Ptr) → Cmd D (Unit {0})
  travel_loop zero op head cur = λ _. out_of_fuel
  travel_loop (suc k) op head cur = if cur == head then pure tt else do
    r ← apply_op op cur
    if is_break r then pure tt else do n ← get_next cur; travel_loop k op head n

  pub llist_travel : ℕ → Llist → (D → ℤ × D) → Cmd D (Unit {0})
  unfolding travel_loop
  llist_travel fuel l op = do cur ← get_next l.head; travel_loop fuel op l.head cur

  getnum_loop : ℕ → (head cur : Ptr) → ℕ → Cmd D ℕ
  getnum_loop zero head cur i = λ _. out_of_fuel
  getnum_loop (suc k) head cur i =
      if cur == head then pure i else do n ← get_next cur; getnum_loop k head n (i + 1)

  pub llist_getnum : ℕ → Llist → Cmd D ℕ
  unfolding getnum_loop
  llist_getnum fuel l = do cur ← get_next l.head; getnum_loop fuel l.head cur 0

  -- `node_check` removes the nodes on which it returns 0; `none` is a null pointer.
  check_node : Option (D → ℤ × D) → Ptr → Cmd D (Unit {0})
  check_node none cur = pure tt
  check_node (some node_check) cur = do
    r ← apply_op node_check cur
    if is_zero r then (do unlink cur; free cur) else pure tt

  check_loop : ℕ → Option (D → ℤ × D) → (head cur : Ptr) → ℕ → Cmd D ℕ
  unfolding check_node
  check_loop zero node_check head cur size = λ _. out_of_fuel
  check_loop (suc k) node_check head cur size = if cur == head then pure size else do
    save ← get_next cur
    check_node node_check cur
    check_loop k node_check head save (size + 1)

  pub llist_check : ℕ → Option Llist → Option (D → ℤ × D) → Cmd D ℤ
  unfolding check_loop
  llist_check fuel none node_check = pure minus_one
  llist_check fuel (some l) node_check = do
    cur ← get_next l.head
    size ← check_loop fuel node_check l.head cur 0
    pure (pos size)

module _ {D K : Type 0} where
  -- `find__`: the node of the first element that `cmp` finds equal to the key, or the head.
  find_loop : ℕ → K → (K → D → ℤ) → (head cur : Ptr) → Cmd D Ptr
  find_loop zero key cmp head cur = λ _. out_of_fuel
  find_loop (suc k) key cmp head cur = if cur == head then pure cur else do
    d ← get_content cur
    if is_zero (cmp key d) then pure cur else do n ← get_next cur; find_loop k key cmp head n

  pub find_node : ℕ → Llist → K → (K → D → ℤ) → Cmd D Ptr
  unfolding find_loop
  find_node fuel l key cmp = do cur ← get_next l.head; find_loop fuel key cmp l.head cur

  pub llist_delet : ℕ → Llist → K → (K → D → ℤ) → Bool → Cmd D ℤ
  llist_delet fuel l key cmp node_op = do
    node ← find_node fuel l key cmp
    if node == l.head
        then pure minus_one
        else do unlink node; notify node_op node; free node; pure (pos 0)

  -- The result is the address of the node whose element is found, `none` for NULL.
  pub llist_find : ℕ → Llist → K → (K → D → ℤ) → Cmd D (Option Ptr)
  llist_find fuel l key cmp = do
    node ← find_node fuel l key cmp
    if node == l.head then pure none else pure (some node)

  -- The second part of the result is what is copied to `data`.
  pub llist_fetch : ℕ → Llist → K → (K → D → ℤ) → Cmd D (ℤ × Option D)
  llist_fetch fuel l key cmp = do
    node ← find_node fuel l key cmp
    if node == l.head
        then pure (minus_one, none)
        else do d ← get_content node; unlink_next_first node; free node; pure (pos 0, some d)

  -- The part of `llist_travel_delete` that removes a node whose key matches.
  delete_matching : K → (K → D → ℤ) → Bool → Ptr → Cmd D (Unit {0})
  delete_matching key cmp node_op cur = do
    d ← get_content cur
    if is_zero (cmp key d) then (do unlink cur; notify node_op cur; free cur) else pure tt

  travel_delete_loop :
      ℕ → (D → ℤ × D) → K → (K → D → ℤ) → Bool → (head cur : Ptr) → Cmd D (Unit {0})
  unfolding delete_matching
  travel_delete_loop zero op key cmp node_op head cur = λ _. out_of_fuel
  travel_delete_loop (suc k) op key cmp node_op head cur = if cur == head then pure tt else do
    r ← apply_op op cur
    save ← get_next cur
    delete_matching key cmp node_op cur
    if is_break r then pure tt else travel_delete_loop k op key cmp node_op head save

  pub llist_travel_delete :
      ℕ → Option Llist → (D → ℤ × D) → K → (K → D → ℤ) → Bool → Cmd D (Unit {0})
  unfolding travel_delete_loop
  llist_travel_delete fuel none op key cmp node_op = pure tt
  llist_travel_delete fuel (some l) op key cmp node_op = do
    cur ← get_next l.head
    travel_delete_loop fuel op key cmp node_op l.head cur
