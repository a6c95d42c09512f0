-- ===== src/Ring/Threads/Alone.antt =====
-- The steps of one call, taken without the other thread, are the whole function.
use gittest.Prelude.{
  ℕ, ◌≡◌, refl, some, [], ◌∷◌, Bool-cases, Option-cases, inl, inr, ◌==◌, get_elem?,
}
use gittest.Prelude.Int.{ℤ}
use gittest.Prelude.Partial.{◌>>=◌}
use gittest.Ring.{
  Bytes, Entry, Ring, Malloc, next_index, write_slot, read_slot, x_ring_sp_enqueue,
  x_ring_sc_dequeue,
}
use gittest.Ring.Threads.{
  p_idle, c_idle, System, calls_enqueue, producer_step, calls_dequeue, consumer_step, produce,
  consume, step, run,
}

-- A call of `x_ring_sp_enqueue` by an idle producer and its three steps, with no step of the consumer
-- between them, make of the ring what the function makes of it, and are undefined where it is.
pub enqueue_steps :
    (malloc : Malloc) (s : System) (src : Bytes) (size : ℕ)
    → s.producer ≡ p_idle
    → (run malloc (calls_enqueue src size ∷ producer_step ∷ producer_step ∷ producer_step ∷ []) s
        >>= λ s'. some s'.shared)
      ≡ (x_ring_sp_enqueue malloc s.shared src size >>= λ res. some res.1)
unfolding run step produce x_ring_sp_enqueue
enqueue_steps malloc s src size idle =
    let r = s.shared in
    elim (Bool-cases (next_index r r.prod_head == r.cons_tail)) [
      | inl full ↦ rw (idle, full) refl
      | inr free ↦ elim (Option-cases (write_slot malloc r.ring r.prod_head src size)) [
        | inl bad ↦ rw (idle, free, bad) refl
        | inr (es, wrote) ↦ rw (idle, free, wrote) refl
      ]
    ]

abbrev pub result_of : ℤ × Ring × Entry → Ring × Entry
result_of (ret, r, out) = (r, out)

abbrev pub ring_and_entry : System → Ring × Entry
ring_and_entry s = (s.shared, s.out)

-- A call of `x_ring_sc_dequeue` by an idle consumer and its three steps, with no step of the producer
-- between them, make of the ring and of the entry what the function makes of them, and are undefined
-- where it is.
pub dequeue_steps :
    (malloc : Malloc) (s : System)
    → s.consumer ≡ c_idle
    → (run malloc (calls_dequeue ∷ consumer_step ∷ consumer_step ∷ consumer_step ∷ []) s >>= λ s'.
        some (ring_and_entry s'))
      ≡ (x_ring_sc_dequeue malloc s.shared s.out >>= λ res. some (result_of res))
unfolding run step consume x_ring_sc_dequeue
dequeue_steps malloc s idle =
    let r = s.shared in
    elim (Bool-cases (r.cons_head == r.prod_tail)) [
      | inl empty ↦ rw (idle, empty) refl
      | inr ready ↦ elim (Option-cases (get_elem? r.ring r.cons_head)) [
        | inl bad ↦ rw (idle, ready, bad) refl
        | inr (slot, at) ↦ elim (Option-cases (read_slot malloc slot s.out)) [
          | inl bad ↦ rw (idle, ready, at, bad) refl
          | inr (out, read) ↦ rw (idle, ready, at, read) refl
        ]
      ]
    ]
