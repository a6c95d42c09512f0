-- ===== src/Ring/Multi/Drain/Emptied.antt =====
-- What `x_ring_print` and `x_ring_destroy` leave of a ring at rest.
use gittest.Prelude.{
  ℕ, zero, suc, ◌+◌, ◌^◌, ◌<◌, ◌≡◌, refl, none, some, Bool, true, false, List, [], ◌∷◌, arith, ap,
  length, if◌then◌else◌, ◌∙◌, map, sym,
}
use gittest.Ring.{Bytes, Entry, Ring, Malloc}
use gittest.Ring.Invariant.{IsRing, IsRoomy, AllRoomy}
use gittest.Ring.Refine.{Allocates}
use gittest.Ring.Dequeue.{sc_dequeue_refines}
use gittest.Ring.Threads.{content}
use gittest.Ring.Threads.Dequeue.{content_lem}
use gittest.Ring.Multi.Alone.{alone, mc_dequeue_alone}
use gittest.Ring.Multi.Drain.{after_dequeue, print_loop, x_ring_print, destroy_loop, x_ring_destroy}

module _ {k : ℕ} (fuel : ℕ) (malloc : Malloc) (mem : Allocates malloc) where
  print_loop_lem :
      (n i m : ℕ) (r : Ring) (e : Entry) (qs : List Bytes)
      → m ≡ i + length qs
      → length qs < n
      → IsRing k r qs
      → IsRoomy e
      → (r' : Ring) × (es : List Entry) × (print_loop alone (suc fuel) malloc n i r e
          ≡ some (some (m, r', es)))
        × IsRing k r' []
        × (map content es ≡ qs)
  unfolding print_loop after_dequeue
  print_loop_lem zero i m r e qs sum lt is room = absurd (omega arith)
  print_loop_lem (suc n) i m r e [] sum lt is room =
      let (r', out, got, is', same, _) = sc_dequeue_refines malloc e is mem room in
      let none_left : i ≡ m = omega arith in
      (r', [], rw (mc_dequeue_alone fuel malloc is e, got, none_left) refl, is', refl)
  print_loop_lem (suc n) i m r e (q ∷ qs) sum lt is room =
      let (r', out, got, is', (roomy, (b, at, len, same)), _) =
        sc_dequeue_refines malloc e is mem room in
      let (r'', es, more, is'', all) =
        print_loop_lem n (i + 1) m r' out qs (omega arith) (omega arith) is' roomy in
      (
        r'',
        out ∷ es,
        rw (mc_dequeue_alone fuel malloc is e, got, more) refl,
        is'',
        rw (content_lem out b (length q) at len, same, all) refl,
      )

  -- On a ring at rest, with memory available and no other thread, `x_ring_print` ends, prints the
  -- messages in order, returns their number, and leaves the ring empty.
  pub x_ring_print_lem :
      {r : Ring} {qs : List Bytes}
      → IsRing k r qs
      → (r' : Ring) × (es : List Entry) × (x_ring_print alone (suc fuel) malloc r
          ≡ some (some (length qs, r', es)))
        × IsRing k r' []
        × (map content es ≡ qs)
  unfolding x_ring_print
  x_ring_print_lem {r} {qs} is =
      let (b, at, len) = mem 1024 in
      print_loop_lem r.size 0 (length qs) r _ qs (omega arith) (omega (arith, is.below, is.size_eq))
        is (b, at, omega arith)

-- The buffers of the slots, in order.
abbrev pub buffers : List Entry → List Bytes
buffers [] = []
buffers (e ∷ es) = elim e.data_buf [ none ↦ buffers es | some b ↦ b ∷ buffers es ]

buffers-AllRoomy : (es : List Entry) → AllRoomy es → length (buffers es) ≡ length es
buffers-AllRoomy [] all = refl
buffers-AllRoomy (e ∷ es) ((b, at, _), all) = rw at (ap suc (buffers-AllRoomy es all))

destroy_loop-suc :
    (op : Bool) (n i : ℕ) (e : Entry) (es : List Entry)
    → destroy_loop op n (suc i) (e ∷ es) ≡ destroy_loop op n i es
unfolding destroy_loop
destroy_loop-suc op zero i e es = refl
destroy_loop-suc op (suc n) i e es = rw (destroy_loop-suc op n (suc i) e es) refl

destroy_loop_lem :
    (op : Bool) (es : List Entry)
    → AllRoomy es
    → destroy_loop op (length es) 0 es ≡ some ((if op then buffers es else []), buffers es)
unfolding destroy_loop
destroy_loop_lem true [] all = refl
destroy_loop_lem false [] all = refl
destroy_loop_lem true (e ∷ es) ((b, at, _), all) =
    rw (destroy_loop-suc true (length es) 0 e es, destroy_loop_lem true es all, at) refl
destroy_loop_lem false (e ∷ es) ((b, at, _), all) =
    rw (destroy_loop-suc false (length es) 0 e es, destroy_loop_lem false es all, at) refl

-- `x_ring_destroy` on a ring at rest frees the buffer of each slot, once and in order, and, if `op` is
-- set, has called it on each of them.
pub x_ring_destroy_lem :
    {k : ℕ} {r : Ring} {qs : List Bytes} (op : Bool)
    → IsRing k r qs
    → (x_ring_destroy op r ≡ some ((if op then buffers r.ring else []), buffers r.ring))
      × (length (buffers r.ring) ≡ 2 ^ k)
unfolding x_ring_destroy
x_ring_destroy_lem {r} op is = (
  rw (is.size_eq ∙ sym is.slots) (destroy_loop_lem op r.ring is.roomy),
  buffers-AllRoomy r.ring is.roomy ∙ is.slots,
)
