-- ===== src/Ring.antt =====
-- x_ring/x_ring.c and x_ring.h, one thread at a time: the ring, and its single-producer and
-- single-consumer operations.
pub mod Create
pub mod Invariant
pub mod Queue
pub mod Refine
pub mod Dequeue
pub mod Copy
pub mod OverRead
pub mod Threads
pub mod Multi
use Prim.Native.Nat.{bit_and}
use gittest.Prelude.{
  ℕ, zero, suc, ◌+◌, ◌-◌, ◌*◌, ◌/◌, ◌%◌, ◌^◌, Bool, true, false, Option, none, some, List, [], ◌∷◌,
  ◌++◌, ◌==◌, ◌&&◌, not, ltb, leb, if◌then◌else◌, length, get_elem?, set, take, drop, replicate,
}
use gittest.Prelude.Int.{ℤ, pos, negsuc}
use gittest.Prelude.Partial.{◌>>=◌}

abbrev pub Bytes : Type 0
Bytes = List ℕ

-- `x_ring_entry_t`. `size` and `content_length` are `int`s that are never negative here; a field is
-- `none` before anything is stored in it. A buffer that `data` points to is the bytes allocated for
-- it; `none` is NULL.
pub record Entry : Type 0 where
  pub size : ℕ
  pub content_length : Option ℕ
  pub data_buf : Option Bytes

-- `x_ring_t`. All indices are `uint32_t`.
pub record Ring : Type 0 where
  pub prod_head : ℕ
  pub prod_tail : ℕ
  pub cons_head : ℕ
  pub cons_tail : ℕ
  pub size : ℕ
  pub mask : ℕ
  pub ring : List Entry

-- What `malloc (n)` gives where an operation calls it: a buffer with any bytes in it, or NULL.
abbrev pub Malloc : Type 0
Malloc = ℕ → Option Bytes

-- `enum X_RING_RET`, as the operations return it: 0, -X_RING_RET_NOSPACE, -X_RING_RET_NOENT.
abbrev pub success : ℤ
success = pos 0

abbrev pub no_space : ℤ
no_space = negsuc 0

abbrev pub no_ent : ℤ
no_ent = negsuc 1

-- The arithmetic of `uint32_t`: (a + b) and (a - b) wrap.
abbrev pub add32 : ℕ → ℕ → ℕ
add32 a b = (a + b) % 2 ^ 32

abbrev pub sub32 : ℕ → ℕ → ℕ
sub32 a b = (a + (2 ^ 32 - b % 2 ^ 32)) % 2 ^ 32

-- `memcpy (dst, src, n)`; `none` is undefined behaviour: a null pointer, or more than either
-- buffer holds.
unfoldable pub memcpy : Option Bytes → Bytes → ℕ → Option Bytes
memcpy none src n = none
memcpy (some dst) src n =
    if leb n (length dst) && leb n (length src) then some (take n src ++ drop n dst) else none

-- (index + 1) & mask
abbrev pub next_index : Ring → ℕ → ℕ
next_index r i = bit_and (add32 i 1) r.mask

-- `if (entry.size < size) { free; malloc (size); entry.size = size }`
abbrev pub make_room : Malloc → Entry → ℕ → Entry
make_room malloc e size =
    if ltb e.size size then record e { size = size; data_buf = malloc size } else e

-- The copy into slot `i`: room, `memcpy`, `content_length`. Without a slot `i` it is undefined.
pub write_slot : Malloc → List Entry → ℕ → Bytes → ℕ → Option (List Entry)
write_slot malloc es i src size = do
  e ← get_elem? es i
  let e' = make_room malloc e size
  b ← memcpy e'.data_buf src size
  some (set es i (record e' { data_buf = some b; content_length = some size }))

pub x_ring_sp_enqueue : Malloc → Ring → Bytes → ℕ → Option (ℤ × Ring)
unfolding write_slot
x_ring_sp_enqueue malloc r src size =
    let prod_next = next_index r r.prod_head in
    if prod_next == r.cons_tail then some (no_space, r) else do
      es ← write_slot malloc r.ring r.prod_head src size
      some (success, record r { prod_head = prod_next; ring = es; prod_tail = prod_next })

-- A `copy` callback: the new buffer behind `ring_data_buf`, and the returned length.
abbrev pub Copy : Type 0
Copy = Option Bytes → Bytes → ℕ → Option (Option Bytes × ℕ)

unfoldable pub x_ring_data_copy : Copy
unfolding memcpy
x_ring_data_copy dst src size = do b ← memcpy dst src size; some (some b, size)

-- The copy into slot `i` by a callback.
pub copy_slot : Malloc → Copy → List Entry → ℕ → Bytes → ℕ → Option (List Entry)
copy_slot malloc copy es i src size = do
  e ← get_elem? es i
  let e' = make_room malloc e size
  (b, n) ← copy e'.data_buf src size
  some (set es i (record e' { data_buf = b; content_length = some n }))

pub x_ring_sp_enqueue2 : Malloc → Ring → Bytes → ℕ → Copy → Option (ℤ × Ring)
unfolding copy_slot
x_ring_sp_enqueue2 malloc r src size copy =
    let prod_next = next_index r r.prod_head in
    if prod_next == r.cons_tail then some (no_space, r) else do
      es ← copy_slot malloc copy r.ring r.prod_head src size
      some (success, record r { prod_head = prod_next; ring = es; prod_tail = prod_next })

pub x_ring_sp_enqueue3 : Malloc → Ring → Bytes → ℕ → Option (ℤ × Ring)
x_ring_sp_enqueue3 malloc r src size = do
  (res, r') ← x_ring_sp_enqueue2 malloc r src size x_ring_data_copy
  some (pos 0, r')

-- The copy of a slot into the caller's entry `out`: a larger buffer if need be (`out.size` stays),
-- `memcpy`, `content_length`.
pub read_slot : Malloc → Entry → Entry → Option Entry
read_slot malloc slot out = do
  n ← slot.content_length
  src ← slot.data_buf
  let dst = if ltb out.size n then malloc slot.size else out.data_buf
  b ← memcpy dst src n
  some (record out { data_buf = some b; content_length = some n })

pub x_ring_sc_dequeue : Malloc → Ring → Entry → Option (ℤ × Ring × Entry)
unfolding read_slot
x_ring_sc_dequeue malloc r out = if r.cons_head == r.prod_tail then some (no_ent, r, out) else do
  let cons_next = next_index r r.cons_head
  slot ← get_elem? r.ring r.cons_head
  out' ← read_slot malloc slot out
  some (success, record r { cons_head = cons_next; cons_tail = cons_next }, out')

-- `unsigned long`; the && stops at n == 0.
pub is_power_of_2 : ℕ → Bool
is_power_of_2 n = not (n == 0) && (bit_and n (n - 1) == 0)

-- `while ((andv & n) == 0) andv = andv >> 1`, on fuel.
roundup_loop : ℕ → ℕ → ℕ → Option ℕ
roundup_loop zero andv n = none
roundup_loop (suc f) andv n =
    let rest = roundup_loop f (andv / 2) n in if bit_and andv n == 0 then rest else some andv

-- `unsigned long` has 64 bits; `~x` is 2^64 - 1 - x.
pub roundup_power_of_two : ℕ → Option ℕ
roundup_power_of_two n =
    if bit_and n ((n + (2 ^ 64 - 1)) % 2 ^ 64) == 0
    then some n
    else (let maxulong : ℕ = 2 ^ 64 - 1 in
        let andv : ℕ = maxulong - bit_and maxulong (maxulong / 2) in
        roundup_loop 64 andv n >>= λ top. some (top * 2 % 2 ^ 64))

-- The slots from `i` on, `n` of them; `malloc i` is the call for slot `i`.
pub fresh_slots : (ℕ → Malloc) → ℕ → ℕ → ℕ → List Entry
fresh_slots malloc ringbuf_size i zero = []
fresh_slots malloc ringbuf_size i (suc n) =
    record { size = ringbuf_size; content_length = none; data_buf = malloc i ringbuf_size }
    ∷ fresh_slots malloc ringbuf_size (i + 1) n

-- The number of slots, an `unsigned int`.
pub slot_count : ℕ → Option ℕ
slot_count count =
    if is_power_of_2 count
    then some count
    else (roundup_power_of_two count >>= λ n. some (n % 2 ^ 32))

-- The fields of a ring of `n` slots as `x_ring_create` sets them.
abbrev pub new_ring : ℕ → List Entry → Ring
new_ring n slots = record {
  prod_head = 0;
  prod_tail = 0;
  cons_head = 0;
  cons_tail = 0;
  size = n;
  mask = sub32 n 1;
  ring = slots;
}

-- The outer `none` is a loop that does not end, the inner one NULL: `allocated` says whether the
-- ring itself could be allocated.
pub x_ring_create : Bool → (ℕ → Malloc) → ℕ → ℕ → Option (Option Ring)
x_ring_create allocated malloc count ringbuf_size = slot_count count >>= λ n.
    some (if allocated then some (new_ring n (fresh_slots malloc ringbuf_size 0 n)) else none)

pub x_ring_full : Ring → Bool
x_ring_full r = bit_and (sub32 (sub32 r.cons_tail r.prod_tail) 1) r.mask == 0

pub x_ring_empty : Ring → Bool
x_ring_empty r = r.cons_tail == r.prod_tail

pub x_ring_count : Ring → ℕ
x_ring_count r = bit_and (sub32 r.prod_tail r.cons_tail) r.mask

pub x_ring_free_count : Ring → ℕ
x_ring_free_count r = bit_and (sub32 (sub32 r.cons_tail r.prod_tail) 1) r.mask
