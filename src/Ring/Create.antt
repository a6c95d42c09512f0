-- ===== src/Ring/Create.antt =====
-- `x_ring_create`: the size it rounds to, and the rings that it makes.
use Prim.Native.Nat.{bit_and}
use gittest.Prelude.{
  ℕ, zero, suc, ◌+◌, ◌-◌, ◌*◌, ◌/◌, ◌%◌, ◌^◌, ◌≤◌, ◌<◌, ◌≡◌, ◌↔◌, ◌⊎◌, ◌≢◌, refl, none, some, [],
  arith, ap, length, ◌∙◌, sym, Bool-cases, inl, inr, ◌==◌, true, false,
}
use native.Mathlib.Nat.{
  mod-eq_of_lt, pow-suc, mod_self, div-eq_of_lt, div-eq_of_lt-le, pow-le-pow_right,
}
use native.Mathlib.Decide.{dec_lt, dec_le}
use gittest.Prelude.Bits.{
  bit_and_mask, bit_and_step, bit_and_self, bit_and_bit, pow_pos, exponent_le,
}
use gittest.Ring.{
  Bytes, Ring, Malloc, is_power_of_2, roundup_loop, roundup_power_of_two, fresh_slots, slot_count,
  new_ring, x_ring_create, x_ring_sp_enqueue, write_slot,
}
use gittest.Ring.Invariant.{AllRoomy, IsRing}
use gittest.Ring.Refine.{Allocates}

abbrev pub IsPower : ℕ → Type 0
IsPower n = (j : ℕ) × (n ≡ 2 ^ j)

-- A number that shares no bit with its predecessor is a power of two.
IsPower-of_disjoint : (f n : ℕ) → n < f → 0 < n → bit_and n (n - 1) ≡ 0 → IsPower n
IsPower-of_disjoint zero n h pos e = absurd (omega arith)
IsPower-of_disjoint (suc f) n h pos e = elim (Bool-cases (n % 2 == 0)) [
  | inl even ↦
      let m : (n - 1) / 2 ≡ n / 2 - 1 = ground arith in
      let e' : bit_and (n / 2) (n / 2 - 1) ≡ 0 =
        omega (arith, bit_and_step n (n - 1), ap (λ (t : ℕ). bit_and (n / 2) t) m) in
      let (j, q) = IsPower-of_disjoint f (n / 2) (omega arith) (ground arith) e' in
      (suc j, ground (arith, pow-suc 2 j))
  | inr odd ↦
      let m : (n - 1) / 2 ≡ n / 2 = ground arith in
      (
        0,
        ground (
          arith,
          bit_and_step n (n - 1),
          ap (λ (t : ℕ). bit_and (n / 2) t) m,
          bit_and_self (n / 2),
        ),
      )
]

disjoint_of_power : (j : ℕ) → bit_and (2 ^ j) (2 ^ j - 1) ≡ 0
disjoint_of_power j = bit_and_mask j (2 ^ j) ∙ mod_self (2 ^ j)

-- `is_power_of_2` decides what its name says.
pub is_power_of_2_iff : (n : ℕ) → (is_power_of_2 n ≡ true) ↔ IsPower n
unfolding is_power_of_2
is_power_of_2_iff n = (
  λ h. IsPower-of_disjoint (suc n) n (omega arith) (ground arith) (ground arith),
  λ (j, e). rw e (ground (arith, pow_pos j, disjoint_of_power j)),
)

-- The test of the loop, for a number below `2 ^ suc j`.
bit_clear : (j n : ℕ) → n < 2 ^ j → bit_and (2 ^ j) n ≡ 0
bit_clear j n h =
    let e : 2 ^ j * (n / 2 ^ j % 2) ≡ 0 = rw (div-eq_of_lt h) (omega arith) in bit_and_bit j n ∙ e

bit_set : (j n : ℕ) → 2 ^ j ≤ n → n < 2 ^ suc j → bit_and (2 ^ j) n ≡ 2 ^ j
bit_set j n lo hi =
    let one : n / 2 ^ j ≡ 1 =
      div-eq_of_lt-le {k = 1} (2 ^ j) (omega arith) (omega (arith, pow-suc 2 j)) in
    bit_and_bit j n ∙ rw one (omega arith)

abbrev TopBit : ℕ → ℕ → Type 0
TopBit n i = (2 ^ i ≤ n) × (n < 2 ^ suc i)

-- The loop of `roundup_power_of_two` ends at the highest bit.
roundup_loop_lem :
    (j n : ℕ)
    → 0 < n
    → n < 2 ^ suc j
    → (i : ℕ) × (roundup_loop (suc j) (2 ^ j) n ≡ some (2 ^ i)) × TopBit n i × (i ≤ j)
unfolding roundup_loop
roundup_loop_lem zero n pos h =
    (0, rw (bit_set 0 n (omega arith) h) refl, (omega arith, h), omega arith)
roundup_loop_lem (suc j) n pos h = elim (dec_lt n (2 ^ suc j)) [
  | yes below ↦
      let (i, e, top, le) = roundup_loop_lem j n pos below in
      let half : 2 ^ suc j / 2 ≡ 2 ^ j = omega (arith, pow-suc 2 j) in
      (i, rw (bit_clear (suc j) n below, half) e, top, omega arith)
  | no above ↦ (
    suc j,
    ground (arith, bit_set (suc j) n (omega arith) h, pow_pos (suc j)),
    (omega arith, h),
    omega arith,
  )
]

-- No number but a power of two passes the first test of `roundup_power_of_two`.
not_disjoint :
    (n : ℕ)
    → 0 < n
    → n < 2 ^ 64
    → is_power_of_2 n ≡ false
    → (bit_and n ((n + (2 ^ 64 - 1)) % 2 ^ 64) == 0) ≡ false
unfolding is_power_of_2
not_disjoint n pos lt other =
    let e : (n + (2 ^ 64 - 1)) % 2 ^ 64 ≡ n - 1 = omega arith in rw e (ground arith)

roundup_lem :
    (n : ℕ)
    → 0 < n
    → n < 2 ^ 64
    → is_power_of_2 n ≡ false
    → (i : ℕ) × (roundup_power_of_two n ≡ some (2 ^ i * 2 % 2 ^ 64)) × TopBit n i
unfolding roundup_power_of_two
roundup_lem n pos lt other =
    let (i, e, top, _) = roundup_loop_lem 63 n pos lt in
    (i, rw (not_disjoint n pos lt other, e) refl, top)

next_small : (i : ℕ) → 2 ^ i < 2 ^ 31 → 2 ^ suc i ≤ 2 ^ 31
next_small i h = pow-le-pow_right {n = 2} (omega arith) below
  where
    below : suc i ≤ 31
    below =
        let le = exponent_le i 31 (omega arith) in
        let ne : i ≢ 31 = λ e. absurd (omega (arith, ap (λ (t : ℕ). 2 ^ t) e)) in omega arith

slot_count_exact : (count : ℕ) → is_power_of_2 count ≡ true → slot_count count ≡ some count
unfolding slot_count
slot_count_exact count e = rw e

slot_count_rounded :
    (count i : ℕ)
    → is_power_of_2 count ≡ false
    → roundup_power_of_two count ≡ some (2 ^ i * 2 % 2 ^ 64)
    → slot_count count ≡ some (2 ^ suc i % 2 ^ 32)
unfolding slot_count
slot_count_rounded count i o e = rw (o, e) (ap some (omega (arith, pow-suc 2 i)))

-- What `x_ring_create` makes of the count: the least power of two that is not smaller, where that
-- is an `unsigned int`.
pub slot_count_lem :
    (count : ℕ)
    → 0 < count
    → count ≤ 2 ^ 31
    → (k : ℕ) × (slot_count count ≡ some (2 ^ k))
      × (count ≤ 2 ^ k)
      × (2 ^ k < 2 * count)
      × (2 ^ k ≤ 2 ^ 31)
slot_count_lem count pos fits = elim (Bool-cases (is_power_of_2 count)) [
  | inl exact ↦
      let (j, e) = (is_power_of_2_iff count).0 exact in
      (j, slot_count_exact count exact ∙ ap some e, omega arith, omega arith, omega arith)
  | inr other ↦
      let (i, e, (lo, hi)) = roundup_lem count pos (omega arith) other in
      let strict : count ≢ 2 ^ i = λ p. let t = (is_power_of_2_iff count).1 (i, p) in cc in
      let small : 2 ^ suc i ≤ 2 ^ 31 = next_small i (omega arith) in
      (
        suc i,
        slot_count_rounded count i other e ∙ ap some (omega arith),
        omega arith,
        omega (arith, pow-suc 2 i),
        small,
      )
]

power_gap : (j : ℕ) → (2 ^ j ≤ 2 ^ 31) ⊎ (2 ^ 32 ≤ 2 ^ j)
power_gap j = elim (dec_le j 31) [
  | yes p ↦ inl (pow-le-pow_right {n = 2} (omega arith) p)
  | no p ↦ inr (pow-le-pow_right {n = 2} (omega arith) {i = 32} (omega arith))
]

-- The counts for which no such size exists.
slot_count_overflow :
    (count : ℕ) → (count ≡ 0) ⊎ ((2 ^ 31 < count) × (count < 2 ^ 32)) → slot_count count ≡ some 0
slot_count_overflow count (inl e) = rw e zero_slots
  where
    zero_slots : slot_count 0 ≡ some 0
    zero_slots = unfold slot_count roundup_power_of_two is_power_of_2 in refl
slot_count_overflow count (inr (lo, hi)) = elim (Bool-cases (is_power_of_2 count)) [
  | inl exact ↦
      let (j, e) = (is_power_of_2_iff count).0 exact in absurd (omega (arith, power_gap j))
  | inr other ↦
      let (i, e, (le, lt)) = roundup_lem count (omega arith) (omega arith) other in
      slot_count_rounded count i other e
      ∙ ap some (omega (arith, power_gap i, power_gap (suc i), pow-suc 2 i))
]

fresh_AllRoomy :
    (malloc : ℕ → Malloc) (size i n : ℕ)
    → ((j : ℕ) → Allocates (malloc j))
    → AllRoomy (fresh_slots malloc size i n) × (length (fresh_slots malloc size i n) ≡ n)
unfolding fresh_slots
fresh_AllRoomy malloc size i zero mem = (tt, refl)
fresh_AllRoomy malloc size i (suc n) mem =
    let (b, is, len) = mem i size in
    let (all, l) = fresh_AllRoomy malloc size (i + 1) n mem in
    (((b, is, omega arith), all), ap suc l)

-- `x_ring_create` for a count from 1 to 2^31, with memory available, makes an empty ring at rest
-- whose size is the least power of two that is not below the count.
pub create-IsRing :
    (malloc : ℕ → Malloc) (count ringbuf_size : ℕ)
    → 0 < count
    → count ≤ 2 ^ 31
    → ((j : ℕ) → Allocates (malloc j))
    → (k : ℕ) × (r : Ring) × (x_ring_create true malloc count ringbuf_size ≡ some (some r))
      × IsRing k r []
      × (count ≤ 2 ^ k)
      × (2 ^ k < 2 * count)
unfolding x_ring_create
create-IsRing malloc count ringbuf_size pos fits mem =
    let (k, e, lo, hi, small) = slot_count_lem count pos fits in
    let (all, len) = fresh_AllRoomy malloc ringbuf_size 0 (2 ^ k) mem in
    (
      k,
      new_ring (2 ^ k) (fresh_slots malloc ringbuf_size 0 (2 ^ k)),
      rw e refl,
      record {
        fits = small;
        size_eq = refl;
        mask_eq = omega (arith, pow_pos k);
        slots = len;
        roomy = all;
        prod_rest = refl;
        cons_rest = refl;
        cons_lt = pow_pos k;
        prod_eq = sym (mod-eq_of_lt (pow_pos k));
        below = pow_pos k;
        held = tt;
      },
      lo,
      hi,
    )

-- For a count of 0, or above 2^31, the size is 0 and the mask has all its bits set: the ring has no
-- slot, its first enqueue sees room, and writes outside the ring.
pub create_overflow :
    (malloc : ℕ → Malloc) (count ringbuf_size : ℕ)
    → (count ≡ 0) ⊎ ((2 ^ 31 < count) × (count < 2 ^ 32))
    → (r : Ring) × (x_ring_create true malloc count ringbuf_size ≡ some (some r))
      × (r.size ≡ 0)
      × ((m : Malloc) (src : Bytes) (size : ℕ) → x_ring_sp_enqueue m r src size ≡ none)
unfolding x_ring_create fresh_slots x_ring_sp_enqueue write_slot
create_overflow malloc count ringbuf_size bad =
    (new_ring 0 [], rw (slot_count_overflow count bad) refl, refl, λ m src size. refl)

-- Without memory for the ring it returns NULL.
pub create_without_memory :
    (malloc : ℕ → Malloc) (count ringbuf_size : ℕ)
    → 0 < count
    → count ≤ 2 ^ 31
    → x_ring_create false malloc count ringbuf_size ≡ some none
unfolding x_ring_create
create_without_memory malloc count ringbuf_size pos fits =
    let (k, e, _, _, _) = slot_count_lem count pos fits in rw e refl
