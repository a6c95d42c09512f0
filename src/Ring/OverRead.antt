-- ===== src/Ring/OverRead.antt =====
-- An enqueue of more bytes than the source has.
use gittest.Prelude.{
  ℕ, suc, ◌^◌, ◌<◌, ◌≡◌, refl, Option, none, some, List, arith, length, get_elem?, Option-cases,
  inl, inr, ◌==◌, ◌∙◌, false,
}
use gittest.Ring.{
  Bytes, Entry, Ring, Malloc, memcpy, make_room, write_slot, next_index, x_ring_sp_enqueue,
}
use gittest.Ring.Invariant.{IsRing}
use gittest.Ring.Refine.{full_test}

-- A copy of more bytes than the source has.
memcpy_short : (dst : Option Bytes) (src : Bytes) (n : ℕ) → length src < n → memcpy dst src n ≡ none
unfolding memcpy
memcpy_short none src n h = refl
memcpy_short (some b) src n h = ground arith

write_slot_short :
    (malloc : Malloc) (es : List Entry) (i : ℕ) (src : Bytes) (size : ℕ)
    → length src < size
    → write_slot malloc es i src size ≡ none
unfolding write_slot
write_slot_short malloc es i src size h = elim (Option-cases (get_elem? es i)) [
  | inl bad ↦ rw bad refl
  | inr (e, at) ↦ rw (at, memcpy_short (make_room malloc e size).data_buf src size h) refl
]

pub enqueue_short :
    {k : ℕ} {r : Ring} {qs : List Bytes} (malloc : Malloc) (src : Bytes) (size : ℕ)
    → IsRing k r qs
    → suc (length qs) < 2 ^ k
    → length src < size
    → x_ring_sp_enqueue malloc r src size ≡ none
unfolding x_ring_sp_enqueue
enqueue_short {k} {r} {qs} malloc src size is room h =
    let free : (next_index r r.prod_head == r.cons_tail) ≡ false =
      full_test is ∙ ground (arith, room) in
    rw (free, write_slot_short malloc r.ring r.prod_head src size h) refl
