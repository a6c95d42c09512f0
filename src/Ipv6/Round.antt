-- ===== src/Ipv6/Round.antt =====
-- One round of the loop of `ipv6_addition`: what is stored, and what goes on to the next word.
use native.Mathlib.Omega.{arith}
use gittest.Prelude.{ℕ, ◌+◌, ◌<◌, ◌≡◌, true, false}
use gittest.Prelude.Int.{ℤ, pos, negsuc, pos_part, neg_part, ◌+ℤ◌, ◌-ℤ◌, ltb_ℤ}
use gittest.Ipv6.{low_half, high_half}

-- One round: what is stored, and what goes on to the next word.
pub low_bound : (t : ℤ) → low_half t < 4294967296
unfolding low_half
low_bound (pos n) = omega arith
low_bound (negsuc n) = omega arith

-- A summand of a round, the number itself or a carry.
abbrev pub IsSummand : ℤ → Type 0
IsSummand n = (pos_part n < 4294967296) × (neg_part n < 4294967296)

pub round_borrows :
    (w : ℕ) (n : ℤ)
    → w < 4294967296
    → IsSummand n
    → ltb_ℤ (pos w +ℤ n) (pos 0) ≡ true
    → low_half (pos w +ℤ n) + neg_part n ≡ w + pos_part n + 4294967296
unfolding low_half ◌+ℤ◌
round_borrows w (pos n) hw hn h = ground arith
round_borrows w (negsuc n) hw (_, hn) h = ground arith

pub round_carries :
    (w : ℕ) (n : ℤ)
    → w < 4294967296
    → IsSummand n
    → ltb_ℤ (pos w +ℤ n) (pos 0) ≡ false
    → ltb_ℤ (pos 0) (pos w +ℤ n -ℤ pos 4294967295) ≡ true
    → (high_half (pos w +ℤ n) ≡ pos 1)
      × (low_half (pos w +ℤ n) + 4294967296 + neg_part n ≡ w + pos_part n)
unfolding low_half high_half ◌+ℤ◌ ◌-ℤ◌
round_carries w (pos n) hw (hn, _) h k = (ground arith, ground arith)
round_carries w (negsuc n) hw hn h k = absurd (ground arith)

pub round_stops :
    (w : ℕ) (n : ℤ)
    → w < 4294967296
    → IsSummand n
    → ltb_ℤ (pos w +ℤ n) (pos 0) ≡ false
    → ltb_ℤ (pos 0) (pos w +ℤ n -ℤ pos 4294967295) ≡ false
    → low_half (pos w +ℤ n) + neg_part n ≡ w + pos_part n
unfolding low_half ◌+ℤ◌ ◌-ℤ◌
round_stops w (pos n) hw (hn, _) h k = ground arith
round_stops w (negsuc n) hw hn h k = ground arith
