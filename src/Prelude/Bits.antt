-- ===== src/Prelude/Bits.antt =====
-- `&` and `|` on native numbers as arithmetic, at every width.
use Prim.Native.Nat.{min, max, digits, bitwise, bit_and, bit_or, bit_and-bitwise, bit_or-bitwise}
use Prim.Native.Nat.add
use mathlib.Core.WellFounded
use native.Mathlib.Decide.{dec_le}
use native.Mathlib.Nat.{pow-suc, one-le-pow, div-div-eq-div-mul}
use gittest.Prelude.{
  ℕ, zero, suc, ◌+◌, ◌-◌, ◌*◌, ◌/◌, ◌%◌, ◌^◌, ◌≤◌, ◌<◌, ◌≡◌, refl, arith, ap, ◌∙◌,
}
use gittest.Prelude.Order.{lt_wf}

-- The native operations stand for a recursion on binary digits with fuel, which is enough as soon
-- as it reaches the first operand.
module _ (rest : ℕ → ℕ) (digit : ℕ → ℕ → ℕ) where
  enough_fuel :
      (a : ℕ) (n m b : ℕ) → a ≤ n → a ≤ m → digits rest digit n a b ≡ digits rest digit m a b
  enough_fuel a zero zero b p q = refl
  enough_fuel zero zero (suc m) b p q = refl
  enough_fuel (suc a) zero m b p q = absurd (omega arith)
  enough_fuel zero (suc n) zero b p q = refl
  enough_fuel (suc a) (suc n) zero b p q = absurd (omega arith)
  enough_fuel zero (suc n) (suc m) b p q = refl
  enough_fuel (suc a) (suc n) (suc m) b p q =
      ap (λ t. t * 2 + digit (suc a % 2) (b % 2))
        (enough_fuel (suc a / 2) n m (b / 2) (omega arith) (omega arith))

  lowest_digit :
      (a b : ℕ)
      → bitwise rest digit (suc a) b
        ≡ bitwise rest digit (suc a / 2) (b / 2) * 2 + digit (suc a % 2) (b % 2)
  lowest_digit a b =
      ap (λ t. t * 2 + digit (suc a % 2) (b % 2))
        (enough_fuel (suc a / 2) a (suc a / 2) (b / 2) (omega arith) (omega arith))

pub bit_and_step : (x y : ℕ) → bit_and x y ≡ min (x % 2) (y % 2) + 2 * bit_and (x / 2) (y / 2)
bit_and_step zero y = simp bit_and-bitwise (omega arith)
bit_and_step (suc x) y =
    let low = lowest_digit (λ _. 0) min x y in simp bit_and-bitwise (omega (arith, low))

pub bit_or_step : (x y : ℕ) → bit_or x y ≡ max (x % 2) (y % 2) + 2 * bit_or (x / 2) (y / 2)
bit_or_step zero y = simp bit_or-bitwise (omega arith)
bit_or_step (suc x) y =
    let low = lowest_digit (λ z. z) max x y in simp bit_or-bitwise (omega (arith, low))

pub zero-bit_and : (b : ℕ) → bit_and 0 b ≡ 0
zero-bit_and b = simp bit_and-bitwise

pub zero-bit_or : (b : ℕ) → bit_or 0 b ≡ b
zero-bit_or b = simp bit_or-bitwise

-- Induction from `n / 2` to `n`.
pub by_halves {ℓ} : (P : ℕ → Type ℓ) → P 0 → ((n : ℕ) → P (suc n / 2) → P (suc n)) → (n : ℕ) → P n
by_halves P base step n = WellFounded.induction lt_wf {C = P} n go
  where
    go : (n : ℕ) → ((m : ℕ) → m < n → P m) → P n
    go zero ih = base
    go (suc n) ih = step n (ih (suc n / 2) (omega arith))

pub bit_and-zero : (a : ℕ) → bit_and a 0 ≡ 0
bit_and-zero = by_halves (λ a. bit_and a 0 ≡ 0) refl (λ n ih. omega (arith, bit_and_step (suc n) 0))

pub bit_or-zero : (a : ℕ) → bit_or a 0 ≡ a
bit_or-zero = by_halves (λ a. bit_or a 0 ≡ a) refl (λ n ih. omega (arith, bit_or_step (suc n) 0))

pub bit_and_self : (a : ℕ) → bit_and a a ≡ a
bit_and_self =
    by_halves (λ a. bit_and a a ≡ a) refl (λ n ih. omega (arith, bit_and_step (suc n) (suc n)))

pub pow_pos : (k : ℕ) → 1 ≤ 2 ^ k
pow_pos k = one-le-pow k 2 (omega arith)

-- Halving takes a factor 2 off a product.
pub mul-pow-suc : (q k : ℕ) → q * 2 ^ suc k ≡ 2 * (q * 2 ^ k)
mul-pow-suc q k = omega (arith, ap (λ (t : ℕ). q * t) (pow-suc 2 k))

-- A field of `k` bits is what a mask of `k` ones keeps, and what `|` puts below a multiple of `2 ^ k`.
mask_of_field : (k q r : ℕ) → r < 2 ^ k → bit_and (q * 2 ^ k + r) (2 ^ k - 1) ≡ r
mask_of_field zero q r h = rw bit_and-zero (omega arith)
mask_of_field (suc k) q r h =
    let e : (q * 2 ^ suc k + r) / 2 ≡ q * 2 ^ k + r / 2 = omega (arith, mul-pow-suc q k) in
    let m : (2 ^ suc k - 1) / 2 ≡ 2 ^ k - 1 = omega (arith, pow-suc 2 k, pow_pos k) in
    let halves : bit_and ((q * 2 ^ suc k + r) / 2) ((2 ^ suc k - 1) / 2) ≡ r / 2 =
      rw (e, m) (mask_of_field k q (r / 2) (omega (arith, pow-suc 2 k))) in
    omega (
      arith,
      bit_and_step (q * 2 ^ suc k + r) (2 ^ suc k - 1),
      mul-pow-suc q k,
      pow-suc 2 k,
      pow_pos k,
      halves,
    )

pub bit_and_mask : (k a : ℕ) → bit_and a (2 ^ k - 1) ≡ a % 2 ^ k
bit_and_mask k a = ground (arith, pow_pos k, mask_of_field k (a / 2 ^ k) (a % 2 ^ k))

pub bit_or_fields : (k q r : ℕ) → r < 2 ^ k → bit_or (q * 2 ^ k) r ≡ q * 2 ^ k + r
bit_or_fields zero q r h = ground (arith, bit_or-zero q)
bit_or_fields (suc k) q r h =
    let e : q * 2 ^ suc k / 2 ≡ q * 2 ^ k = omega (arith, mul-pow-suc q k) in
    let ih : bit_or (q * 2 ^ suc k / 2) (r / 2) ≡ q * 2 ^ k + r / 2 =
      rw e (bit_or_fields k q (r / 2) (omega (arith, pow-suc 2 k))) in
    omega (arith, bit_or_step (q * 2 ^ suc k) r, mul-pow-suc q k, ih)

-- A single bit tests a binary digit.
pub bit_and_bit : (j n : ℕ) → bit_and (2 ^ j) n ≡ 2 ^ j * (n / 2 ^ j % 2)
bit_and_bit zero n = omega (arith, bit_and_step 1 n, zero-bit_and (n / 2))
bit_and_bit (suc j) n =
    let e : 2 ^ suc j / 2 ≡ 2 ^ j = omega (arith, pow-suc 2 j) in
    let d : n / 2 / 2 ^ j ≡ n / 2 ^ suc j =
      div-div-eq-div-mul n 2 (2 ^ j) ∙ ap (λ (t : ℕ). n / t) (omega (arith, pow-suc 2 j)) in
    let half : bit_and (2 ^ suc j / 2) (n / 2) ≡ 2 ^ j * (n / 2 ^ suc j % 2) =
      rw e (rw (bit_and_bit j (n / 2), d)) in
    omega (
      arith,
      bit_and_step (2 ^ suc j) n,
      pow-suc 2 j,
      half,
      ap (λ (t : ℕ). t * (n / 2 ^ suc j % 2)) (pow-suc 2 j),
    )

pub pow-add : (a b : ℕ) → 2 ^ (a + b) ≡ 2 ^ a * 2 ^ b
pow-add zero b = simp (add.zero b) (omega arith)
pow-add (suc a) b =
    let e : suc a + b ≡ suc (a + b) = omega arith in
    rw e (
      omega (
        arith,
        pow-suc 2 (a + b),
        pow-suc 2 a,
        pow-add a b,
        ap (λ (t : ℕ). t * 2 ^ b) (pow-suc 2 a),
      ))

-- A power of two that is at most another divides it.
pub pow_multiple : (k n : ℕ) → k ≤ n → 2 ^ n ≡ 2 ^ (n - k) * 2 ^ k
pow_multiple k n h =
    let e : n ≡ n - k + k = omega arith in ap (λ (t : ℕ). 2 ^ t) e ∙ pow-add (n - k) k

pub exponent_le : (k n : ℕ) → 2 ^ k ≤ 2 ^ n → k ≤ n
exponent_le k n h = elim (dec_le k n) [
  | yes p ↦ p
  | no p ↦
      let e = pow_multiple n k (omega arith) in
      let two : 2 ≤ 2 ^ (k - n) = at_least_two (k - n) (omega arith) in
      absurd (grind (arith, pow_pos n))
]
  where
    at_least_two : (j : ℕ) → 1 ≤ j → 2 ≤ 2 ^ j
    at_least_two zero p = elim p [ ]
    at_least_two (suc j) p = omega (arith, pow-suc 2 j, pow_pos j)
