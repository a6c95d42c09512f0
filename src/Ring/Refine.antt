-- ===== src/Ring/Refine.antt =====
-- The single-producer and single-consumer operations implement a bounded queue.
use gittest.Prelude.{
  ℕ, zero, suc, ◌+◌, ◌%◌, ◌^◌, ◌≤◌, ◌<◌, ◌≡◌, refl, some, List, [], ◌∷◌, ◌++◌, arith, ap, length,
  set, take, drop, length-set, length-append, length-take, length-drop, ◌∙◌, sym, Bool-cases, inl,
  inr, ltb, ◌==◌, false,
}
use gittest.Prelude.Wrap.{mod-below, step_on, next-eq_iff, place-eq_iff}
use gittest.Ring.{
  Bytes, Entry, Ring, Malloc, success, memcpy, next_index, make_room, write_slot, x_ring_sp_enqueue,
}
use gittest.Ring.Queue.{push}
use gittest.Ring.Invariant.{
  IsRoomy, AllRoomy, Filled, IsRing, get_some, roomy_at, AllRoomy-set, Holds-set, next_index_lem,
}

-- Memory is available: each request gives a buffer of the requested length.
abbrev pub Allocates : Malloc → Type 0
Allocates malloc = (n : ℕ) → (b : Bytes) × (malloc n ≡ some b) × (length b ≡ n)

pub take-take-append :
    (n : ℕ) (src r : Bytes) → n ≤ length src → take n (take n src ++ r) ≡ take n src
take-take-append zero src r h = refl
take-take-append (suc n) [] r h = absurd (omega arith)
take-take-append (suc n) (x ∷ src) r h = ap (λ t. x ∷ t) (take-take-append n src r (omega arith))

-- What `memcpy` leaves at the start of a buffer that is large enough.
pub memcpy_lem :
    (dst src : Bytes) (n : ℕ)
    → n ≤ length dst
    → n ≤ length src
    → (b : Bytes) × (memcpy (some dst) src n ≡ some b)
      × (take n b ≡ take n src)
      × (length b ≡ length dst)
unfolding memcpy
memcpy_lem dst src n hd hs = (
  take n src ++ drop n dst,
  ground arith,
  take-take-append n src (drop n dst) hs,
  omega (arith, length-append (take n src) (drop n dst), length-take n src, length-drop n dst),
)

-- After `make_room` the buffer of a slot has the requested size.
make_room_lem :
    (malloc : Malloc) (e : Entry) (size : ℕ)
    → Allocates malloc
    → IsRoomy e
    → IsRoomy (make_room malloc e size) × (size ≤ (make_room malloc e size).size)
make_room_lem malloc e size mem room = elim (Bool-cases (ltb e.size size)) [
  | inl small ↦ rw small (let (b, is, len) = mem size in ((b, is, omega arith), omega arith))
  | inr large ↦ rw large (room, ground arith)
]

-- A write into a slot of the ring fills it with the first `size` bytes of the message.
pub write_slot_lem :
    (malloc : Malloc) (es : List Entry) (i : ℕ) (src : Bytes) (size : ℕ)
    → Allocates malloc
    → AllRoomy es
    → i < length es
    → size ≤ length src
    → (e : Entry) × (write_slot malloc es i src size ≡ some (set es i e))
      × Filled e (take size src)
      × IsRoomy e
unfolding write_slot
write_slot_lem malloc es i src size mem all lt len =
    let (old, at) = get_some es i lt in
    let (room, fits) = make_room_lem malloc old size mem (roomy_at es i old all at) in
    let (buf, is, cap) = room in
    let (b, copied, same, blen) = memcpy_lem buf src size (omega arith) len in
    let l : length (take size src) ≡ size = omega (arith, length-take size src) in
    (
      record (make_room malloc old size) { data_buf = some b; content_length = some size },
      rw (at, is, copied) refl,
      (b, refl, ap some (sym l), omega arith, rw l same),
      (b, refl, omega arith),
    )

module _ {k : ℕ} {r : Ring} {qs : List Bytes} (is : IsRing k r qs) where
  next_prod : next_index r r.prod_head ≡ (r.cons_head + suc (length qs)) % 2 ^ k
  next_prod =
      let lt : r.prod_head < 2 ^ k = omega (
        arith,
        is.prod_eq,
        mod-below (2 ^ k) r.cons_head (length qs) is.cons_lt (omega (arith, is.below)),
      ) in
      next_index_lem k r r.prod_head is.fits is.mask_eq lt
      ∙ ap (λ t. (t + 1) % 2 ^ k) is.prod_eq
      ∙ step_on (2 ^ k) r.cons_head (length qs) is.cons_lt is.below

  -- The producer's test for a full ring.
  pub full_test : (next_index r r.prod_head == r.cons_tail) ≡ (length qs + 1 == 2 ^ k)
  full_test = ground (
    arith,
    next_prod,
    is.cons_rest,
    is.below,
    step_on (2 ^ k) r.cons_head (length qs) is.cons_lt is.below,
    next-eq_iff (2 ^ k) r.cons_head (length qs) is.cons_lt is.below,
  )

  -- The consumer's test for an empty ring.
  pub empty_test : (r.cons_head == r.prod_tail) ≡ (length qs == 0)
  empty_test = ground (
    arith,
    is.prod_rest,
    is.prod_eq,
    place-eq_iff (2 ^ k) r.cons_head (length qs) is.cons_lt is.below,
  )

  enqueue_room :
      (malloc : Malloc) (src : Bytes) (size : ℕ)
      → Allocates malloc
      → size ≤ length src
      → (length qs + 1 == 2 ^ k) ≡ false
      → (r' : Ring) × (x_ring_sp_enqueue malloc r src size ≡ some (success, r'))
        × IsRing k r' (qs ++ take size src ∷ [])
  unfolding x_ring_sp_enqueue
  enqueue_room malloc src size mem len room =
      let lt : r.prod_head < length r.ring = omega (
        arith,
        is.slots,
        is.prod_eq,
        mod-below (2 ^ k) r.cons_head (length qs) is.cons_lt (omega (arith, is.below)),
      ) in
      let (e, written, filled, roomy) =
        write_slot_lem malloc r.ring r.prod_head src size mem is.roomy lt len in
      let n : length (qs ++ take size src ∷ []) ≡ suc (length qs) =
        omega (arith, length-append qs (take size src ∷ [])) in
      let more : suc (length qs) < 2 ^ k = ground (arith, is.below) in
      (
        record r {
          prod_head = next_index r r.prod_head;
          ring = set r.ring r.prod_head e;
          prod_tail = next_index r r.prod_head;
        },
        rw (full_test ∙ room, written) refl,
        record {
          fits = is.fits;
          size_eq = is.size_eq;
          mask_eq = is.mask_eq;
          slots = length-set r.ring r.prod_head e ∙ is.slots;
          roomy = AllRoomy-set r.ring r.prod_head e is.roomy roomy;
          prod_rest = refl;
          cons_rest = is.cons_rest;
          cons_lt = is.cons_lt;
          prod_eq = next_prod ∙ ap (λ t. (r.cons_head + t) % 2 ^ k) (sym n);
          below = omega arith;
          held =
              Holds-set r.ring (2 ^ k) r.cons_head r.prod_head e (take size src) qs is.slots
                is.cons_lt is.below is.prod_eq filled is.held;
        },
      )

  pub sp_enqueue_refines :
      (malloc : Malloc) (src : Bytes) (size : ℕ)
      → Allocates malloc
      → size ≤ length src
      → let (res, qs') = push (2 ^ k) qs (take size src) in
        (r' : Ring) × (x_ring_sp_enqueue malloc r src size ≡ some (res, r'))
        × IsRing k r' qs'
        × (length qs + 1 ≡ 2 ^ k → r' ≡ r)
  unfolding x_ring_sp_enqueue
  sp_enqueue_refines malloc src size mem len = elim (Bool-cases (length qs + 1 == 2 ^ k)) [
    | inl full ↦ rw full (r, rw (full_test ∙ full) refl, is, λ e. refl)
    | inr room ↦
        let (r', run, is') = enqueue_room malloc src size mem len room in
        rw room (r', run, is', λ e. absurd (ground (arith, e)))
  ]
