-- ===== src/XLog/Logged.antt =====
-- What reaches the log file of x_ring/x_log.c.
use mathlib.Core.List.{append-nil, append_assoc}
use gittest.Prelude.{
  ℕ, zero, suc, ◌+◌, ◌-◌, ◌%◌, ◌^◌, ◌≤◌, ◌<◌, ◌≡◌, refl, none, some, false, List, [], ◌∷◌, ◌++◌,
  arith, length, take, ◌∙◌, ltb, length-append, length-take, length-replicate, replicate,
}
use gittest.Prelude.Int.{ℤ}
use gittest.Utils.Chars.{Text}
use gittest.Ring.{Bytes, Entry, Ring, Malloc, x_ring_sp_enqueue}
use gittest.Ring.OverRead.{enqueue_short}
use gittest.Ring.Invariant.{IsRing, IsRoomy}
use gittest.Ring.Refine.{Allocates}
use gittest.Ring.Dequeue.{sc_dequeue_refines}
use gittest.Ring.Threads.{content}
use gittest.Ring.Threads.Dequeue.{content_lem}
use gittest.Ring.Multi.Alone.{alone, mp_enqueue_alone}
use gittest.XLog.{
  XLog, unsigned, level_name, line, buffer_of, enqueue_loop, x_log_write, thread_round,
  thread_rounds,
}

abbrev pub concat : List Bytes → Bytes
concat [] = []
concat (q ∷ qs) = q ++ concat qs

-- The thread of the logger, alone with a ring at rest that holds `qs`, and with memory available: any
-- number of rounds that is not below the number of messages writes the messages to the file in order,
-- one after the other, leaves the ring empty, and none of them is undefined.
pub thread_rounds_lem :
    {k : ℕ} (malloc : Malloc) (n : ℕ) (x : XLog) (e : Entry) (qs : List Bytes)
    → length qs ≤ n
    → Allocates malloc
    → IsRing k x.log_ring qs
    → IsRoomy e
    → (x' : XLog) × (e' : Entry) × (thread_rounds malloc n (x, e) ≡ some (x', e'))
      × IsRing k x'.log_ring []
      × (x'.file ≡ x.file ++ concat qs)
unfolding thread_rounds thread_round
thread_rounds_lem malloc zero x e [] le mem is room = (x, e, refl, is, rw append-nil refl)
thread_rounds_lem malloc zero x e (q ∷ qs) le mem is room = absurd (omega arith)
thread_rounds_lem malloc (suc n) x e [] le mem is room =
    let (r', out, got, is', same, _) = sc_dequeue_refines malloc e is mem room in
    let (x', e', more, is'', written) =
      thread_rounds_lem malloc n (record x { log_ring = r' }) out [] (omega arith) mem is'
        (rw same room) in
    (x', e', rw got more, is'', written)
thread_rounds_lem malloc (suc n) x e (q ∷ qs) le mem is room =
    let (r', out, got, is', (roomy, (b, at, len, same)), _) =
      sc_dequeue_refines malloc e is mem room in
    let holds : content out ≡ q = content_lem out b (length q) at len ∙ same in
    let next = record x {
      log_ring = r';
      file = x.file ++ content out;
      log_count = (x.log_count + 1) % 2 ^ 64;
    } in
    let (x', e', more, is'', written) =
      thread_rounds_lem malloc n next out qs (omega arith) mem is' roomy in
    (x', e', rw got more, is'', written ∙ rw holds (append_assoc x.file q (concat qs)))

length-buffer_of : (l : Text) → length (buffer_of l) ≡ 1024
length-buffer_of l = omega (
  arith,
  length-append (take 1023 l) (replicate (1024 - length (take 1023 l)) 0),
  length-replicate {A = ℕ} (1024 - length (take 1023 l)) 0,
  length-take 1023 l,
)

enqueue_loop_undefined :
    {k : ℕ} {r : Ring} {qs : List Bytes} (f g : ℕ) (malloc : Malloc) (src : Bytes) (size : ℕ)
    → IsRing k r qs
    → x_ring_sp_enqueue malloc r src size ≡ none
    → enqueue_loop alone (suc f) (suc g) malloc r src size ≡ some none
unfolding enqueue_loop
enqueue_loop_undefined f g malloc src size is e = rw (mp_enqueue_alone f malloc is src size, e) refl

module _ {k : ℕ} {qs : List Bytes} (x : XLog) (f g : ℕ) (malloc : Malloc) (stamp msg name : Text)
    (level : ℤ) (is : IsRing k x.log_ring qs) (room : suc (length qs) < 2 ^ k)
    (passes : ltb (unsigned x.level) (unsigned level) ≡ false)
    (known : level_name level ≡ some name) where
  -- The same without a bound on the line: one of more than 1024 bytes is read behind the end of the buffer,
  -- since the length that is passed to the ring is that before the line was cut.
  pub x_log_write_over_read :
      1024 < length (line stamp name msg)
      → x_log_write alone (suc f) (suc g) malloc x stamp level msg ≡ some none
  unfolding x_log_write
  x_log_write_over_read long =
      let l = line stamp name msg in
      let short : length (buffer_of l) < length l = omega (arith, long, length-buffer_of l) in
      let bad =
        enqueue_loop_undefined f g malloc (buffer_of l) (length l) is
          (enqueue_short malloc (buffer_of l) (length l) is room short) in
      rw (passes, known, bad) refl
