-- ===== src/LinkList/Memory.antt =====
-- The memory that link_list.c works on: the nodes by address, and commands that read and write it.
-- An element (`size` bytes behind a node) is only copied and handed to callbacks: any type `D`.
use gittest.Prelude.{
  ℕ, ◌≡◌, ◌≢◌, Bool, true, false, Option, none, some, List, [], ◌∷◌, ◌++◌, ◌==◌, if◌then◌else◌,
}

abbrev pub Ptr : Type 0
Ptr = ℕ

abbrev pub null : Ptr
null = 0

-- `struct llist_node_st`, field by field. `none` is a field that nothing has been stored in. `calls`
-- records what `node_op` callbacks have been called on, oldest first.
pub record Heap (D : Type 0) : Type 0 where
  pub live : Ptr → Bool
  pub prev : Ptr → Option Ptr
  pub next : Ptr → Option Ptr
  pub content : Ptr → Option D
  pub calls : List D

abbrev pub update : {A : Type 0} → (Ptr → A) → Ptr → A → Ptr → A
update f p a q = if q == p then a else f q

-- `fault` is undefined behaviour: an access to a freed node or to a field that was never stored.
pub data Run (D A : Type 0) : Type 0 where
  ok : A → Heap D → Run D A
  fault : Run D A
  out_of_fuel : Run D A

abbrev pub Cmd : Type 0 → Type 0 → Type 0
Cmd D A = Heap D → Run D A

module _ {D : Type 0} where
  abbrev pub pure : {A : Type 0} → A → Cmd D A
  pure a h = ok a h

  abbrev pub and_then : {A B : Type 0} → Run D A → (A → Cmd D B) → Run D B
  and_then (ok a h) k = k a h
  and_then fault k = fault
  and_then out_of_fuel k = out_of_fuel

  infixl 5 ◌>>=◌ ◌>>◌
  abbrev pub ◌>>=◌ : {A B : Type 0} → Cmd D A → (A → Cmd D B) → Cmd D B
  m >>= k = λ h. and_then (m h) k

  abbrev pub ◌>>◌ : {B : Type 0} → Cmd D (Unit {0}) → Cmd D B → Cmd D B
  m >> n = m >>= λ _. n

  -- A read of a field of the node at `p`.
  abbrev pub field_of : {A : Type 0} → (Heap D → Ptr → Option A) → Ptr → Cmd D A
  field_of f p h = if h.live p then (elim (f h p) [ none ↦ fault | some a ↦ ok a h ]) else fault

  unfoldable pub get_next : Ptr → Cmd D Ptr
  get_next = field_of (λ h. h.next)

  unfoldable pub get_prev : Ptr → Cmd D Ptr
  get_prev = field_of (λ h. h.prev)

  unfoldable pub get_content : Ptr → Cmd D D
  get_content = field_of (λ h. h.content)

  unfoldable pub set_next : Ptr → Ptr → Cmd D (Unit {0})
  set_next p q h = if h.live p then ok tt (record h { next = update h.next p (some q) }) else fault

  unfoldable pub set_prev : Ptr → Ptr → Cmd D (Unit {0})
  set_prev p q h = if h.live p then ok tt (record h { prev = update h.prev p (some q) }) else fault

  unfoldable pub set_content : Ptr → D → Cmd D (Unit {0})
  set_content p d h =
      if h.live p then ok tt (record h { content = update h.content p (some d) }) else fault

  -- `free`: at an address that is not allocated it is a fault (a double free).
  unfoldable pub free : Ptr → Cmd D (Unit {0})
  free p h = if h.live p then ok tt (record h { live = update h.live p false }) else fault

  -- A call of a `node_op` on an element.
  unfoldable pub call : D → Cmd D (Unit {0})
  call d h = ok tt (record h { calls = h.calls ++ (d ∷ []) })

-- `malloc` of the C library: null, or an address that is not in use.
pub record Allocator (D : Type 0) : Type 0 where
  pub malloc : Heap D → Ptr
  pub fresh : (h : Heap D) → malloc h ≢ null → h.live (malloc h) ≡ false

module _ {D : Type 0} (m : Allocator D) where
  -- The fields of a new node hold nothing yet.
  abbrev pub allocated : Heap D → Heap D
  allocated h =
      let p = m.malloc h in
      record h {
        live = update h.live p true;
        prev = update h.prev p none;
        next = update h.next p none;
        content = update h.content p none;
      }

  unfoldable pub alloc : Cmd D Ptr
  alloc h = if m.malloc h == null then ok null h else ok (m.malloc h) (allocated h)
