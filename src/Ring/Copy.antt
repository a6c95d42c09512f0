-- ===== src/Ring/Copy.antt =====
-- `x_ring_sp_enqueue2` with a copy callback, and `x_ring_sp_enqueue3`, which passes the plain copy.
use gittest.Prelude.{ℕ, ◌^◌, ◌≤◌, ◌≡◌, refl, some, List, arith, length, take, ◌∙◌}
use gittest.Prelude.Int.{pos}
use gittest.Ring.{
  Bytes, Entry, Ring, Malloc, memcpy, write_slot, copy_slot, x_ring_data_copy, x_ring_sp_enqueue,
  x_ring_sp_enqueue2, x_ring_sp_enqueue3,
}
use gittest.Ring.Queue.{push}
use gittest.Ring.Invariant.{IsRing}
use gittest.Ring.Refine.{Allocates, sp_enqueue_refines}

copy_slot-data_copy :
    (malloc : Malloc) (es : List Entry) (i : ℕ) (src : Bytes) (size : ℕ)
    → copy_slot malloc x_ring_data_copy es i src size ≡ write_slot malloc es i src size
unfolding copy_slot write_slot x_ring_data_copy memcpy
copy_slot-data_copy malloc es i src size = ground arith

-- With `x_ring_data_copy` as the callback, `x_ring_sp_enqueue2` is `x_ring_sp_enqueue`.
pub enqueue2-data_copy :
    (malloc : Malloc) (r : Ring) (src : Bytes) (size : ℕ)
    → x_ring_sp_enqueue2 malloc r src size x_ring_data_copy ≡ x_ring_sp_enqueue malloc r src size
unfolding x_ring_sp_enqueue x_ring_sp_enqueue2
enqueue2-data_copy malloc r src size =
    ground (arith, copy_slot-data_copy malloc r.ring r.prod_head src size)

-- `x_ring_sp_enqueue3` on a ring at rest returns 0 whatever happens: the ring then holds what `push`
-- makes of it, so a message for a full ring is dropped and success is reported.
pub enqueue3_drops :
    {k : ℕ} {r : Ring} {qs : List Bytes} (malloc : Malloc) (src : Bytes) (size : ℕ)
    → IsRing k r qs
    → Allocates malloc
    → size ≤ length src
    → (r' : Ring) × (x_ring_sp_enqueue3 malloc r src size ≡ some (pos 0, r'))
      × IsRing k r' (push (2 ^ k) qs (take size src)).1
unfolding x_ring_sp_enqueue3
enqueue3_drops malloc src size is mem len =
    let (r', e, is', _) = sp_enqueue_refines is malloc src size mem len in
    (r', rw (enqueue2-data_copy malloc _ src size ∙ e) refl, is')
