-- ===== src/Prelude/Wrap.antt =====
-- Positions on a circle of `m` places.
use native.Mathlib.Nat.{mod-eq_of_lt, mod-eq-sub-mod, mul-add-mod_self_right}
use native.Mathlib.Decide.{dec_lt}
use gittest.Prelude.{
  ℕ, zero, suc, ◌+◌, ◌-◌, ◌*◌, ◌%◌, ◌≤◌, ◌<◌, ◌≡◌, ◌↔◌, ◌⊎◌, inl, inr, arith, ap, ◌∙◌,
}

-- `n` steps from `c` go round at most once.
abbrev pub Wrapped : ℕ → ℕ → ℕ → Type 0
Wrapped m c n = ((c + n < m) × ((c + n) % m ≡ c + n)) ⊎ ((m ≤ c + n) × ((c + n) % m ≡ c + n - m))

pub wrapped : (m c n : ℕ) → c < m → n ≤ m → Wrapped m c n
wrapped m c n hc hn = elim (dec_lt (c + n) m) [
  | yes p ↦ inl (p, mod-eq_of_lt p)
  | no p ↦ inr (
    omega arith,
    mod-eq-sub-mod {n = c + n} {m = m} (omega arith) ∙ mod-eq_of_lt {n = c + n - m} (omega arith),
  )
]

pub mod-below : (m c n : ℕ) → c < m → n ≤ m → (c + n) % m < m
mod-below m c n hc hn = omega (arith, wrapped m c n hc hn)

-- One more step.
pub step_on : (m c n : ℕ) → c < m → suc n ≤ m → ((c + n) % m + 1) % m ≡ (c + suc n) % m
step_on m c n hc hn = omega (
  arith,
  wrapped m c n hc (omega arith),
  wrapped m c (suc n) hc hn,
  wrapped m ((c + n) % m) 1 (mod-below m c n hc (omega arith)) (omega arith),
)

-- The same with the step taken first.
pub step_first : (m c n : ℕ) → c < m → suc n ≤ m → ((c + 1) % m + n) % m ≡ (c + suc n) % m
step_first m c n hc hn = omega (
  arith,
  wrapped m c 1 hc (omega arith),
  wrapped m c (suc n) hc hn,
  wrapped m ((c + 1) % m) n (mod-below m c 1 hc (omega arith)) (omega arith),
)

-- The place before the start is reached exactly after `m - 1` steps, the start after none.
pub next-eq_iff : (m c n : ℕ) → c < m → n < m → (((c + n) % m + 1) % m ≡ c) ↔ (n + 1 ≡ m)
next-eq_iff m c n hc hn = (
  λ e. omega (arith, step_on m c n hc hn, wrapped m c (suc n) hc hn),
  λ e. omega (arith, step_on m c n hc hn, wrapped m c (suc n) hc hn),
)

pub place-eq_iff : (m c n : ℕ) → c < m → n < m → (c ≡ (c + n) % m) ↔ (n ≡ 0)
place-eq_iff m c n hc hn = (
  λ e. omega (arith, wrapped m c n hc (omega arith)),
  λ e. omega (arith, wrapped m c n hc (omega arith)),
)

-- A little below a multiple of `m`.
pub below_multiple : (m d t n : ℕ) → 1 ≤ d → n < m → t ≡ d * m → (t - (m - n)) % m ≡ n
below_multiple m zero t n hd hn e = absurd (omega arith)
below_multiple m (suc d) t n hd hn e =
    let s : t - (m - n) ≡ d * m + n = omega arith in
    ap (λ (x : ℕ). x % m) s ∙ mul-add-mod_self_right d m n ∙ mod-eq_of_lt hn
