-- ===== src/Ring/Dequeue.antt =====
-- The consumer's side of the refinement, and the queries.
use gittest.Prelude.{
  ℕ, ◌+◌, ◌-◌, ◌*◌, ◌%◌, ◌^◌, ◌≤◌, ◌<◌, ◌≡◌, refl, none, some, List, [], ◌∷◌, arith, ap, length,
  take, ◌∙◌, sym, Option, Bool-cases, ◌⊎◌, inl, inr, ltb, ◌==◌, true, false,
}
use native.Mathlib.Nat.{mod-eq_of_lt}
use gittest.Prelude.Bits.{bit_and_mask, pow_pos, pow_multiple, exponent_le}
use gittest.Prelude.Wrap.{Wrapped, wrapped, mod-below, step_first, below_multiple}
use gittest.Ring.{
  Bytes, Entry, Ring, Malloc, next_index, sub32, read_slot, x_ring_sc_dequeue, x_ring_count,
  x_ring_free_count, x_ring_full, x_ring_empty,
}
use gittest.Ring.Queue.{pop}
use gittest.Ring.Invariant.{IsRoomy, Filled, IsRing, roomy_at, next_index_lem}
use gittest.Ring.Refine.{Allocates, memcpy_lem, empty_test}

-- What the caller's entry holds after a call: the message, in a buffer as large as `size` says.
abbrev pub Received : Option Bytes → Entry → Entry → Type 0
Received none out out' = out' ≡ out
Received (some q) out out' =
    IsRoomy out'
    × ((b : Bytes) × (out'.data_buf ≡ some b)
        × (out'.content_length ≡ some (length q))
        × (take (length q) b ≡ q))

pub read_slot_lem :
    (malloc : Malloc) (slot out : Entry) (q : Bytes)
    → Allocates malloc
    → IsRoomy slot
    → IsRoomy out
    → Filled slot q
    → (out' : Entry) × (read_slot malloc slot out ≡ some out') × Received (some q) out out'
unfolding read_slot
read_slot_lem malloc slot out q mem (sb, s_is, s_cap) (ob, o_is, o_cap) (b, is, cl, fits, same) =
    elim (Bool-cases (ltb out.size (length q))) [
      | inl small ↦
          let (nb, n_is, n_len) = mem slot.size in
          let (c, copied, eq, len) = memcpy_lem nb b (length q) (omega arith) enough in
          (
            record out { data_buf = some c; content_length = some (length q) },
            rw (cl, is, small, n_is, copied) refl,
            ((c, refl, ground arith), (c, refl, refl, eq ∙ same)),
          )
      | inr large ↦
          let (c, copied, eq, len) = memcpy_lem ob b (length q) (ground arith) enough in
          (
            record out { data_buf = some c; content_length = some (length q) },
            rw (cl, is, large, o_is, copied) refl,
            ((c, refl, ground arith), (c, refl, refl, eq ∙ same)),
          )
    ]
  where
    enough : length q ≤ length b
    enough = ground arith

-- A number below `m`, or as far below 2^32.
abbrev Near : ℕ → ℕ → ℕ → Type 0
Near m n x = (x ≡ n) ⊎ (x ≡ 2 ^ 32 - (m - n))

mod_of_Near : (m d n x : ℕ) → n < m → 1 ≤ d → 2 ^ 32 ≡ d * m → Near m n x → x % m ≡ n
mod_of_Near m d n x hn hd e (inl p) = rw p (mod-eq_of_lt hn)
mod_of_Near m d n x hn hd e (inr p) = rw p (below_multiple m d (2 ^ 32) n hd hn e)

forward_distance : (m c n : ℕ) → c < m → n < m → m ≤ 2 ^ 31 → Near m n (sub32 ((c + n) % m) c)
forward_distance m c n hc hn fits = by (wrapped m c n hc (omega arith))
  where
    by : Wrapped m c n → Near m n (sub32 ((c + n) % m) c)
    by (inl (lt, e)) = inl (rw e (omega arith))
    by (inr (le, e)) = inr (rw e (omega arith))

backward_distance :
    (m c n : ℕ) → c < m → n < m → m ≤ 2 ^ 31 → Near m (m - 1 - n) (sub32 (sub32 c ((c + n) % m)) 1)
backward_distance m c n hc hn fits = by (wrapped m c n hc (omega arith))
  where
    by : Wrapped m c n → Near m (m - 1 - n) (sub32 (sub32 c ((c + n) % m)) 1)
    by (inl (lt, e)) = inr (rw e (omega arith))
    by (inr (le, e)) = inl (rw e (omega arith))

-- A ring that holds nothing stays as it was, in all its fields.
abbrev pub Unmoved : List Bytes → Ring → Ring → Type 0
Unmoved [] r r' = r' ≡ r
Unmoved (q ∷ qs) r r' = Unit

module _ {k : ℕ} {r : Ring} where
  dequeue_by :
      (malloc : Malloc) (out : Entry) (qs : List Bytes)
      → IsRing k r qs
      → Allocates malloc
      → IsRoomy out
      → let (res, q, qs') = pop qs in
        (r' : Ring) × (out' : Entry) × (x_ring_sc_dequeue malloc r out ≡ some (res, r', out'))
        × IsRing k r' qs'
        × Received q out out'
        × Unmoved qs r r'
  unfolding x_ring_sc_dequeue
  dequeue_by malloc out [] is mem room =
      let e : (r.cons_head == r.prod_tail) ≡ true = empty_test is in
      (r, out, rw e refl, is, refl, refl)
  dequeue_by malloc out (q ∷ qs) is mem room =
      let e : (r.cons_head == r.prod_tail) ≡ false = empty_test is ∙ ground arith in
      let ((slot, at, filled), rest) = is.held in
      let (out', read, got) =
        read_slot_lem malloc slot out q mem (roomy_at r.ring r.cons_head slot is.roomy at) room
          filled in
      let next : next_index r r.cons_head ≡ (r.cons_head + 1) % 2 ^ k =
        next_index_lem k r r.cons_head is.fits is.mask_eq is.cons_lt in
      (
        record r { cons_head = next_index r r.cons_head; cons_tail = next_index r r.cons_head },
        out',
        rw (e, at, read) refl,
        record {
          fits = is.fits;
          size_eq = is.size_eq;
          mask_eq = is.mask_eq;
          slots = is.slots;
          roomy = is.roomy;
          prod_rest = is.prod_rest;
          cons_rest = refl;
          cons_lt = rw next (mod-below (2 ^ k) r.cons_head 1 is.cons_lt (omega arith));
          prod_eq =
              is.prod_eq
              ∙ sym
                  (step_first (2 ^ k) r.cons_head (length qs) is.cons_lt (omega (arith, is.below)))
              ∙ ap (λ t. (t + length qs) % 2 ^ k) (sym next);
          below = omega (arith, is.below);
          held = rw next rest;
        },
        got,
        tt,
      )

  -- `x_ring_sc_dequeue` on a ring at rest is `pop` on what it holds: it returns -NOENT and leaves
  -- the whole ring and the entry as they were where the ring is empty, and else returns 0, hands over the oldest message in a buffer
  -- as large as the entry's `size` says, and removes it. It needs memory where the message is larger
  -- than the entry.
  pub sc_dequeue_refines :
      {qs : List Bytes} (malloc : Malloc) (out : Entry)
      → IsRing k r qs
      → Allocates malloc
      → IsRoomy out
      → let (res, q, qs') = pop qs in
        (r' : Ring) × (out' : Entry) × (x_ring_sc_dequeue malloc r out ≡ some (res, r', out'))
        × IsRing k r' qs'
        × Received q out out'
        × Unmoved qs r r'
  sc_dequeue_refines {qs} malloc out is mem room = dequeue_by malloc out qs is mem room

  module _ {qs : List Bytes} (is : IsRing k r qs) where
    -- The facts about the indices that the queries turn on.
    spread :
        Wrapped (2 ^ k) r.cons_head (length qs)
        × (r.prod_tail ≡ (r.cons_head + length qs) % 2 ^ k)
        × (r.cons_tail ≡ r.cons_head)
        × (length qs < 2 ^ k)
        × (r.cons_head < 2 ^ k)
        × (2 ^ k ≤ 2 ^ 31)
        × (2 ^ 32 ≡ 2 ^ (32 - k) * 2 ^ k)
    spread = (
      wrapped (2 ^ k) r.cons_head (length qs) is.cons_lt (omega (arith, is.below)),
      is.prod_rest ∙ is.prod_eq,
      is.cons_rest,
      is.below,
      is.cons_lt,
      is.fits,
      pow_multiple k 32 (omega (arith, exponent_le k 31 is.fits)),
    )

    distance : sub32 r.prod_tail r.cons_tail % 2 ^ k ≡ length qs
    distance =
        rw (spread.1, spread.2)
          (mod_of_Near (2 ^ k) (2 ^ (32 - k)) (length qs) _ is.below (pow_pos (32 - k)) spread.6
            (forward_distance (2 ^ k) r.cons_head (length qs) is.cons_lt is.below is.fits))

    room_left : sub32 (sub32 r.cons_tail r.prod_tail) 1 % 2 ^ k ≡ 2 ^ k - 1 - length qs
    room_left =
        rw (spread.1, spread.2)
          (mod_of_Near (2 ^ k) (2 ^ (32 - k)) (2 ^ k - 1 - length qs) _ (omega (arith, is.below))
            (pow_pos (32 - k)) spread.6
            (backward_distance (2 ^ k) r.cons_head (length qs) is.cons_lt is.below is.fits))

    -- On a ring at rest `x_ring_count` is the number of messages, `x_ring_free_count` the number that
    -- still fits, and `x_ring_full` and `x_ring_empty` say whether that or the count is 0: the
    -- wrapping subtractions and the mask lose nothing.
    pub queries_lem :
        (x_ring_count r ≡ length qs)
        × (x_ring_free_count r ≡ 2 ^ k - 1 - length qs)
        × (x_ring_full r ≡ (length qs + 1 == 2 ^ k))
        × (x_ring_empty r ≡ (length qs == 0))
    unfolding x_ring_count x_ring_free_count x_ring_full x_ring_empty
    queries_lem = (
      rw (is.mask_eq, bit_and_mask) distance,
      rw (is.mask_eq, bit_and_mask) room_left,
      rw (is.mask_eq, bit_and_mask, room_left) (ground (arith, is.below)),
      ground (arith, empty_test is, is.cons_rest),
    )
