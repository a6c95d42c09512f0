-- ===== src/Ring/Multi.antt =====
-- x_ring/x_ring.c: the operations for several producers and consumers, as one thread runs them, and
-- `x_ring_print` and `x_ring_destroy`. What other threads do to the ring meanwhile is a parameter.
pub mod Alone
pub mod Drain
pub mod Overtaken
use gittest.Prelude.{
  ℕ, zero, suc, ◌+◌, Bool, true, false, Option, none, some, List, [], ◌∷◌, ◌++◌, ◌==◌,
  if◌then◌else◌, get_elem?,
}
use gittest.Prelude.Int.{ℤ}
use gittest.Prelude.Partial.{◌>>=◌}
use gittest.Ring.{
  Bytes, Entry, Ring, Malloc, success, no_space, no_ent, next_index, write_slot, read_slot,
}

-- What the other threads do between two accesses, by the fuel that is left.
abbrev pub Others : Type 0
Others = ℕ → Ring → Ring

-- `lock; cmpxchgl`: whether `dst` was `exp`, and its value then.
unfoldable pub atomic32_cmpset : ℕ → ℕ → ℕ → Bool × ℕ
atomic32_cmpset dst exp src = if dst == exp then (true, src) else (false, dst)

-- The outcome of the first loop: nothing to claim, or the claimed index and the next one.
pub data Claim : Type 0 where
  refused : Ring → Claim
  claimed : ℕ → ℕ → Ring → Claim

-- `do { ... } while (res != 1)` of the producer, on fuel.
pub claim_prod : Others → ℕ → Ring → Option Claim
claim_prod others zero r = none
claim_prod others (suc f) r =
    let prod_head = r.prod_head in
    let prod_next = next_index r prod_head in
    let r' = others (suc f) r in
    let (res, value) = atomic32_cmpset r'.prod_head prod_head prod_next in
    let again = claim_prod others f r' in
    if prod_next == r.cons_tail
    then some (refused r)
    else (if res
        then some (claimed prod_head prod_next (record r' { prod_head = value }))
        else again)

-- `while (ringbuf->prod.tail != prod_head)`, on fuel.
pub wait_prod : Others → ℕ → ℕ → Ring → Option Ring
wait_prod others zero h r = none
wait_prod others (suc f) h r =
    let again = wait_prod others f h (others (suc f) r) in
    if r.prod_tail == h then some r else again

publish : ℕ → Option Ring → Option (Option (ℤ × Ring))
publish next none = none
publish next (some r) = some (some (success, record r { prod_tail = next }))

fill : Others → ℕ → ℕ → ℕ → Ring → Option (List Entry) → Option (Option (ℤ × Ring))
unfolding publish wait_prod
fill others f h next r none = some none
fill others f h next r (some es) = publish next (wait_prod others f h (record r { ring = es }))

enqueue_claimed : Others → ℕ → Malloc → Bytes → ℕ → Option Claim → Option (Option (ℤ × Ring))
unfolding fill
enqueue_claimed others f malloc src size none = none
enqueue_claimed others f malloc src size (some (refused r)) = some (some (no_space, r))
enqueue_claimed others f malloc src size (some (claimed h next r)) =
    fill others f h next r (write_slot malloc r.ring h src size)

-- The outer `none` is a loop that has not ended with this fuel, the inner one undefined behaviour.
pub x_ring_mp_enqueue : Others → ℕ → Malloc → Ring → Bytes → ℕ → Option (Option (ℤ × Ring))
unfolding claim_prod enqueue_claimed
x_ring_mp_enqueue others f malloc r src size =
    enqueue_claimed others f malloc src size (claim_prod others f r)

-- The same two loops of the consumer.
pub claim_cons : Others → ℕ → Ring → Option Claim
claim_cons others zero r = none
claim_cons others (suc f) r =
    let cons_head = r.cons_head in
    let cons_next = next_index r cons_head in
    let r' = others (suc f) r in
    let (res, value) = atomic32_cmpset r'.cons_head cons_head cons_next in
    let again = claim_cons others f r' in
    if cons_head == r.prod_tail
    then some (refused r)
    else (if res
        then some (claimed cons_head cons_next (record r' { cons_head = value }))
        else again)

pub wait_cons : Others → ℕ → ℕ → Ring → Option Ring
wait_cons others zero h r = none
wait_cons others (suc f) h r =
    let again = wait_cons others f h (others (suc f) r) in
    if r.cons_tail == h then some r else again

release : ℕ → Entry → Option Ring → Option (Option (ℤ × Ring × Entry))
release next out none = none
release next out (some r) = some (some (success, record r { cons_tail = next }, out))

hand_over : Others → ℕ → ℕ → ℕ → Ring → Option Entry → Option (Option (ℤ × Ring × Entry))
unfolding release wait_cons
hand_over others f h next r none = some none
hand_over others f h next r (some out) = release next out (wait_cons others f h r)

dequeue_claimed : Others → ℕ → Malloc → Entry → Option Claim → Option (Option (ℤ × Ring × Entry))
unfolding hand_over
dequeue_claimed others f malloc out none = none
dequeue_claimed others f malloc out (some (refused r)) = some (some (no_ent, r, out))
dequeue_claimed others f malloc out (some (claimed h next r)) =
    hand_over others f h next r (get_elem? r.ring h >>= λ slot. read_slot malloc slot out)

pub x_ring_mc_dequeue : Others → ℕ → Malloc → Ring → Entry → Option (Option (ℤ × Ring × Entry))
unfolding claim_cons dequeue_claimed
x_ring_mc_dequeue others f malloc r out =
    dequeue_claimed others f malloc out (claim_cons others f r)
