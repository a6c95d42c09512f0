-- ===== src/Tests/Rings.antt =====
-- The rings of x_ring.c: four slots with one message.
use gittest.Prelude.{
  List, length, ◌++◌, ℕ, ◌*◌, ◌^◌, ◌≤◌, ◌<◌, ◌≡◌, refl, true, none, some, [], ◌∷◌, arith, replicate,
  length-replicate,
}
use gittest.Prelude.Int.{pos}
use gittest.Ring.{
  Bytes, Entry, Ring, Malloc, success, x_ring_sc_dequeue, x_ring_create, x_ring_empty,
}
use gittest.Ring.Invariant.{IsRing, IsRoomy, Filled}
use gittest.Ring.Refine.{Allocates}
use gittest.Ring.Dequeue.{Received, Unmoved, sc_dequeue_refines}
use gittest.Ring.Create.{create-IsRing}
use gittest.Ring.Threads.{
  p_idle, c_idle, System, Event, calls_enqueue, producer_step, calls_dequeue, consumer_step, run,
}
use gittest.Ring.Threads.Invariant.{IsSystem}
use gittest.Ring.Threads.Safety.{threads_lem}
use gittest.Ring.Multi.{x_ring_mp_enqueue}
use gittest.XLog.{XLog, thread_rounds}
use gittest.XLog.Logged.{thread_rounds_lem}
use gittest.Ring.Multi.Overtaken.{leave, mp_enqueue_overtaken}

abbrev zeros : Malloc
zeros n = some (replicate n 0)

abbrev zeros_all : Allocates zeros
zeros_all n = (replicate n 0, refl, length-replicate n 0)

abbrev slot : Entry
slot = record { size = 2; content_length = none; data_buf = some (0 ∷ 0 ∷ []) }

abbrev message : Entry
message = record { size = 2; content_length = some 1; data_buf = some (65 ∷ 0 ∷ []) }

-- The message stands in the last slot: the next one goes round to the first.
abbrev four : Ring
four = record {
  prod_head = 0;
  prod_tail = 0;
  cons_head = 3;
  cons_tail = 3;
  size = 4;
  mask = 3;
  ring = slot ∷ slot ∷ slot ∷ message ∷ [];
}

abbrev roomy_slot : IsRoomy slot
roomy_slot = (0 ∷ 0 ∷ [], refl, omega arith)

abbrev roomy_message : IsRoomy message
roomy_message = (65 ∷ 0 ∷ [], refl, omega arith)

abbrev four-IsRing : IsRing 2 four ((65 ∷ []) ∷ [])
four-IsRing = record {
  fits = omega arith;
  size_eq = refl;
  mask_eq = refl;
  slots = refl;
  roomy = (roomy_slot, (roomy_slot, (roomy_slot, (roomy_message, tt))));
  prod_rest = refl;
  cons_rest = refl;
  cons_lt = omega arith;
  prod_eq = refl;
  below = omega arith;
  held = ((message, refl, (65 ∷ 0 ∷ [], refl, refl, omega arith, refl)), tt);
}

sc_dequeue_refines_example :
    (r' : Ring) × (out' : Entry) × (x_ring_sc_dequeue zeros four slot ≡ some (success, r', out'))
    × IsRing 2 r' []
    × Received (some (65 ∷ [])) slot out'
    × Unmoved ((65 ∷ []) ∷ []) four r'
sc_dequeue_refines_example = sc_dequeue_refines zeros slot four-IsRing zeros_all roomy_slot

create-IsRing_example :
    (k : ℕ) × (r : Ring) × (x_ring_create true (λ j. zeros) 5 4 ≡ some (some r))
    × IsRing k r []
    × (5 ≤ 2 ^ k)
    × (2 ^ k < 2 * 5)
create-IsRing_example = create-IsRing (λ j. zeros) 5 4 (omega arith) (omega arith) (λ j. zeros_all)

-- Both threads idle, and the message published.
abbrev both : System
both = record {
  shared = four;
  producer = p_idle;
  consumer = c_idle;
  out = slot;
  sent = (65 ∷ []) ∷ [];
  received = [];
}

abbrev both-IsSystem : IsSystem 2 both ((65 ∷ []) ∷ [])
both-IsSystem = record {
  shape = record {
    fits = four-IsRing.fits;
    mask_eq = refl;
    slots = refl;
    roomy = four-IsRing.roomy;
    cons_lt = four-IsRing.cons_lt;
    prod_eq = refl;
    below = four-IsRing.below;
    held = four-IsRing.held;
  };
  producing = refl;
  consuming = refl;
  roomy_out = roomy_slot;
  history = refl;
}

-- The threads take turns.
abbrev turns : List Event
turns =
    calls_enqueue (66 ∷ []) 1
    ∷ calls_dequeue
    ∷ producer_step
    ∷ consumer_step
    ∷ consumer_step
    ∷ producer_step
    ∷ consumer_step
    ∷ producer_step
    ∷ []

threads_lem_example :
    (s' : System) × (qs' : List Bytes) × (run zeros turns both ≡ some s')
    × IsSystem 2 s' qs'
    × (s'.sent ≡ s'.received ++ qs')
    × (length qs' < 4)
threads_lem_example =
    threads_lem zeros turns zeros_all (omega arith, (tt, (tt, (tt, (tt, (tt, (tt, (tt, tt))))))))
      both-IsSystem

abbrev logger : XLog
logger = record { log_ring = four; level = pos 3; file = []; log_count = 0 }

abbrev long_message : Bytes
long_message = replicate 1100 b'x'

thread_rounds_lem_example :
    (x' : XLog) × (e' : Entry) × (thread_rounds zeros 2 (logger, slot) ≡ some (x', e'))
    × IsRing 2 x'.log_ring []
    × (x'.file ≡ 65 ∷ [])
thread_rounds_lem_example =
    thread_rounds_lem zeros 2 logger slot ((65 ∷ []) ∷ []) (omega arith) zeros_all four-IsRing
      roomy_slot

-- Another state of the ring, full, with the head at the same place.
abbrev round_later : Ring
round_later = record {
  prod_head = 0;
  prod_tail = 0;
  cons_head = 1;
  cons_tail = 1;
  size = 4;
  mask = 3;
  ring = slot ∷ message ∷ message ∷ message ∷ [];
}

abbrev filled_message : (e : Entry) × (some message ≡ some e) × Filled e (65 ∷ [])
filled_message = (message, refl, (65 ∷ 0 ∷ [], refl, refl, omega arith, refl))

abbrev round_later-IsRing : IsRing 2 round_later ((65 ∷ []) ∷ (65 ∷ []) ∷ (65 ∷ []) ∷ [])
round_later-IsRing = record {
  fits = omega arith;
  size_eq = refl;
  mask_eq = refl;
  slots = refl;
  roomy = (roomy_slot, (roomy_message, (roomy_message, (roomy_message, tt))));
  prod_rest = refl;
  cons_rest = refl;
  cons_lt = omega arith;
  prod_eq = refl;
  below = omega arith;
  held = (filled_message, (filled_message, (filled_message, tt)));
}

mp_enqueue_overtaken_example :
    (lost : Ring) × (x_ring_mp_enqueue (leave round_later) 1 zeros four (66 ∷ []) 1
      ≡ some (some (success, lost)))
    × (x_ring_empty lost ≡ true)
mp_enqueue_overtaken_example =
    mp_enqueue_overtaken four-IsRing round_later-IsRing (omega arith) refl refl 0 zeros (66 ∷ []) 1
      zeros_all (omega arith)
