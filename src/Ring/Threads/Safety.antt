-- ===== src/Ring/Threads/Safety.antt =====
-- Every schedule of the two threads.
use mathlib.Core.List.{append_assoc}
use gittest.Prelude.{
  ℕ, ◌^◌, ◌≤◌, ◌<◌, ◌≡◌, refl, some, List, [], ◌∷◌, ◌++◌, arith, ap, length, ◌∙◌, sym,
  length-append,
}
use gittest.Ring.{Bytes, Entry, Ring, Malloc}
use gittest.Ring.Refine.{Allocates}
use gittest.Ring.Threads.{
  Producer, p_idle, p_head, p_claimed, p_copied, Consumer, c_idle, c_head, c_claimed, c_copied,
  System, Event, calls_enqueue, producer_step, calls_dequeue, consumer_step, begin_enqueue,
  begin_dequeue, step, run,
}
use gittest.Ring.Threads.Invariant.{Shape, pending, Producing, Consuming, IsSystem}
use gittest.Ring.Threads.Enqueue.{SameConsumer, produce_lem}
use gittest.Ring.Threads.Dequeue.{SameProducer, consume_lem}

-- Each call of an enqueue is given at least as many bytes as it says.
abbrev pub Sized : Event → Type 0
Sized (calls_enqueue src size) = size ≤ length src
Sized producer_step = Unit
Sized calls_dequeue = Unit
Sized consumer_step = Unit

abbrev pub AllSized : List Event → Type 0
AllSized [] = Unit
AllSized (e ∷ es) = Sized e × AllSized es

-- Messages that the producer adds are behind those that the consumer is at.
Consuming-append :
    (r r' : Ring) (qs msgs : List Bytes) (c : Consumer) (out : Entry)
    → SameConsumer r r'
    → Consuming r qs c out
    → Consuming r' (qs ++ msgs) c out
Consuming-append r r' qs msgs c_idle out (hd, tl, mk) co = hd ∙ co ∙ sym tl
Consuming-append r r' qs msgs (c_head h) out (hd, tl, mk) (at, e) = (at ∙ sym tl, hd ∙ e)
Consuming-append r r' qs msgs (c_claimed h) out (hd, tl, mk) (at, e, (q, left, is)) =
    (at ∙ sym tl, hd ∙ rw mk e, (q, left ++ msgs, ap (λ l. l ++ msgs) is))
Consuming-append r r' qs msgs (c_copied h) out (hd, tl, mk) (at, e, (left, is)) =
    (at ∙ sym tl, hd ∙ rw mk e, (left ++ msgs, ap (λ l. l ++ msgs) is))

-- Messages that the consumer takes leave room.
Producing-less :
    (k : ℕ) (r r' : Ring) (m n : ℕ) (p : Producer)
    → n ≤ m
    → SameProducer r r'
    → Producing k r m p
    → Producing k r' n p
Producing-less k r r' m n p_idle le (hd, tl, mk) pr = hd ∙ pr ∙ sym tl
Producing-less k r r' m n (p_head src size h) le (hd, tl, mk) (at, e, len) =
    (at ∙ sym tl, hd ∙ e, len)
Producing-less k r r' m n (p_claimed src size h) le (hd, tl, mk) (at, e, len, room) =
    (at ∙ sym tl, hd ∙ rw mk e, len, omega arith)
Producing-less k r r' m n (p_copied src size h) le (hd, tl, mk) (at, e, room) =
    (at ∙ sym tl, hd ∙ rw mk e, omega arith)

-- A call starts at the thread's own head.
begin_produces :
    {k : ℕ} {r : Ring} {qs : List Bytes} (src : Bytes) (size : ℕ) (p : Producer)
    → size ≤ length src
    → Shape k r (pending p) qs
    → Producing k r (length qs) p
    → let p' = begin_enqueue src size r.prod_head p in
      Shape k r (pending p') qs × Producing k r (length qs) p'
begin_produces src size p_idle len sh pr = (sh, (pr, refl, len))
begin_produces src size (p_head _ _ h) len sh pr = (sh, pr)
begin_produces src size (p_claimed _ _ h) len sh pr = (sh, pr)
begin_produces src size (p_copied _ _ h) len sh pr = (sh, pr)

begin_consumes :
    (r : Ring) (qs : List Bytes) (out : Entry) (c : Consumer)
    → Consuming r qs c out
    → Consuming r qs (begin_dequeue r.cons_head c) out
begin_consumes r qs out c_idle co = (co, refl)
begin_consumes r qs out (c_head h) co = co
begin_consumes r qs out (c_claimed h) co = co
begin_consumes r qs out (c_copied h) co = co

-- After any step.
Stepped : Malloc → ℕ → Event → System → Type 0
Stepped malloc k e s =
    (s' : System) × (qs' : List Bytes) × (step malloc e s ≡ some s') × IsSystem k s' qs'

step_lem :
    {k : ℕ} {s : System} {qs : List Bytes} (malloc : Malloc) (e : Event)
    → Allocates malloc
    → Sized e
    → IsSystem k s qs
    → Stepped malloc k e s
unfolding step Stepped
step_lem {s} {qs} malloc (calls_enqueue src size) mem len is =
    let (sh, pr) = begin_produces src size s.producer len is.shape is.producing in
    (
      _,
      qs,
      refl,
      record {
        shape = sh;
        producing = pr;
        consuming = is.consuming;
        roomy_out = is.roomy_out;
        history = is.history;
      },
    )
step_lem {s} {qs} malloc producer_step mem _ is =
    let (p, r, msgs, e, sh, pr, same) = produce_lem malloc s.producer mem is.shape is.producing in
    (
      _,
      qs ++ msgs,
      rw e refl,
      record {
        shape = sh;
        producing = pr;
        consuming = Consuming-append s.shared r qs msgs s.consumer s.out same is.consuming;
        roomy_out = is.roomy_out;
        history = ap (λ l. l ++ msgs) is.history ∙ append_assoc s.received qs msgs;
      },
    )
step_lem {s} {qs} malloc calls_dequeue mem _ is = (
  _,
  qs,
  refl,
  record {
    shape = is.shape;
    producing = is.producing;
    consuming = begin_consumes s.shared qs s.out s.consumer is.consuming;
    roomy_out = is.roomy_out;
    history = is.history;
  },
)
step_lem {k} {s} {qs} malloc consumer_step mem _ is =
    let (c, r, out, msgs, left, e, parts, sh, co, room, same) =
      consume_lem malloc s.consumer s.out qs mem is.roomy_out is.shape is.consuming in
    (
      _,
      left,
      rw e refl,
      record {
        shape = sh;
        producing =
            Producing-less k s.shared r (length qs) (length left) s.producer
              (omega (arith, ap (λ l. length {A = Bytes} l) parts, length-append msgs left)) same
              is.producing;
        consuming = co;
        roomy_out = room;
        history =
            is.history ∙ ap (λ l. s.received ++ l) parts ∙ sym (append_assoc s.received msgs left);
      },
    )

-- One thread enqueues by `x_ring_sp_enqueue` and another dequeues by `x_ring_sc_dequeue`, on a ring that
-- is consistent at the start. Whatever the order in which they take steps, and whenever they make
-- calls, with memory available and no message shorter than its size says, no step is undefined, the
-- ring stays consistent and below its size, and the messages published are, in order, those received
-- followed by those still in the ring: none is lost, repeated, torn or overtaken.
pub threads_lem :
    {k : ℕ} {s : System} {qs : List Bytes} (malloc : Malloc) (events : List Event)
    → Allocates malloc
    → AllSized events
    → IsSystem k s qs
    → (s' : System) × (qs' : List Bytes) × (run malloc events s ≡ some s')
      × IsSystem k s' qs'
      × (s'.sent ≡ s'.received ++ qs')
      × (length qs' < 2 ^ k)
unfolding run Stepped
threads_lem {s} {qs} malloc [] mem _ is = (s, qs, refl, is, is.history, is.shape.below)
threads_lem malloc (e ∷ es) mem (ok, oks) is =
    let (s', qs', one, is') = step_lem malloc e mem ok is in
    let (s'', qs'', more, is'', h, b) = threads_lem {s = s'} {qs = qs'} malloc es mem oks is' in
    (s'', qs'', rw one more, is'', h, b)
