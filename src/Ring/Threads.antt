-- ===== src/Ring/Threads.antt =====
-- x_ring/x_ring.c with two threads: one in `x_ring_sp_enqueue`, one in `x_ring_sc_dequeue`. A step reads
-- the other thread's index and moves the own head, which the other thread does not read, or copies a
-- message, or moves the own tail, in the order of the source; the threads take steps in any order.
-- Accesses are sequentially consistent.
pub mod Invariant
pub mod Enqueue
pub mod Dequeue
pub mod Safety
pub mod Alone
use gittest.Prelude.{
  ℕ, ◌≡◌, ◌≤◌, Option, none, some, List, [], ◌∷◌, ◌++◌, ◌==◌, if◌then◌else◌, length, get_elem?,
  take,
}
use gittest.Prelude.Partial.{◌>>=◌}
use gittest.Ring.{Bytes, Entry, Ring, Malloc, next_index, write_slot, read_slot}

-- Where a thread stands in `x_ring_sp_enqueue`, with its arguments and its local `prod_head`.
pub data Producer : Type 0 where
  p_idle : Producer
  p_head : Bytes → ℕ → ℕ → Producer
  p_claimed : Bytes → ℕ → ℕ → Producer
  p_copied : Bytes → ℕ → ℕ → Producer

-- Where a thread stands in `x_ring_sc_dequeue`, with its local `cons_head`.
pub data Consumer : Type 0 where
  c_idle : Consumer
  c_head : ℕ → Consumer
  c_claimed : ℕ → Consumer
  c_copied : ℕ → Consumer

-- A step of the producer: where it stands then, the ring, and the message that it has published. The
-- local `prod_next` is computed again, since the mask stays as it is. `none` is undefined behaviour.
pub produce : Malloc → Producer → Ring → Option (Producer × Ring × List Bytes)
unfolding write_slot
produce malloc p_idle r = some (p_idle, r, [])
produce malloc (p_head src size h) r =
    let prod_next = next_index r h in
    if prod_next == r.cons_tail
    then some (p_idle, r, [])
    else some (p_claimed src size h, record r { prod_head = prod_next }, [])
produce malloc (p_claimed src size h) r = do
  es ← write_slot malloc r.ring h src size
  some (p_copied src size h, record r { ring = es }, [])
produce malloc (p_copied src size h) r =
    some (p_idle, record r { prod_tail = next_index r h }, take size src ∷ [])

-- The bytes that an entry holds.
abbrev pub content : Entry → Bytes
content e = elim e.content_length [
  | none ↦ []
  | some n ↦ elim e.data_buf [ none ↦ [] | some b ↦ take n b ]
]

-- A step of the consumer, likewise, on its entry `out`, with the message that it has taken.
pub consume : Malloc → Consumer → Ring → Entry → Option (Consumer × Ring × Entry × List Bytes)
unfolding read_slot
consume malloc c_idle r out = some (c_idle, r, out, [])
consume malloc (c_head h) r out =
    if h == r.prod_tail
    then some (c_idle, r, out, [])
    else some (c_claimed h, record r { cons_head = next_index r h }, out, [])
consume malloc (c_claimed h) r out = do
  slot ← get_elem? r.ring h
  out' ← read_slot malloc slot out
  some (c_copied h, r, out', [])
consume malloc (c_copied h) r out =
    some (c_idle, record r { cons_tail = next_index r h }, out, content out ∷ [])

-- The ring, both threads, and the messages that have been published and taken, oldest first.
pub record System : Type 0 where
  pub shared : Ring
  pub producer : Producer
  pub consumer : Consumer
  pub out : Entry
  pub sent : List Bytes
  pub received : List Bytes

-- What happens next: a call of either function, whose first access reads the thread's own head, or a
-- step of a call that is under way. A thread that is busy makes no new call.
pub data Event : Type 0 where
  calls_enqueue : Bytes → ℕ → Event
  producer_step : Event
  calls_dequeue : Event
  consumer_step : Event

abbrev pub begin_enqueue : Bytes → ℕ → ℕ → Producer → Producer
begin_enqueue src size h p_idle = p_head src size h
begin_enqueue src size h p = p

abbrev pub begin_dequeue : ℕ → Consumer → Consumer
begin_dequeue h c_idle = c_head h
begin_dequeue h c = c

pub step : Malloc → Event → System → Option System
unfolding produce consume
step malloc (calls_enqueue src size) s =
    some (record s { producer = begin_enqueue src size s.shared.prod_head s.producer })
step malloc producer_step s = do
  (p, r, msgs) ← produce malloc s.producer s.shared
  some (record s { shared = r; producer = p; sent = s.sent ++ msgs })
step malloc calls_dequeue s =
    some (record s { consumer = begin_dequeue s.shared.cons_head s.consumer })
step malloc consumer_step s = do
  (c, r, out, msgs) ← consume malloc s.consumer s.shared s.out
  some (record s { shared = r; consumer = c; out = out; received = s.received ++ msgs })

pub run : Malloc → List Event → System → Option System
unfolding step
run malloc [] s = some s
run malloc (e ∷ es) s = step malloc e s >>= run malloc es
