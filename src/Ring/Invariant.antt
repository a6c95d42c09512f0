-- ===== src/Ring/Invariant.antt =====
-- What a ring holds: the well-formedness invariant of `x_ring_t` between operations.
use gittest.Prelude.{
  ℕ, zero, suc, ◌+◌, ◌-◌, ◌%◌, ◌^◌, ◌≤◌, ◌<◌, ◌≡◌, ◌≢◌, refl, some, List, [], ◌∷◌, ◌++◌, arith, ap,
  length, get_elem?, set, take, get_elem?-set_self, get_elem?-set_ne, ◌∙◌, sym,
}
use native.Mathlib.Nat.{mod-eq_of_lt}
use gittest.Prelude.Bits.{bit_and_mask}
use gittest.Prelude.Wrap.{wrapped, mod-below, step_first}
use gittest.Ring.{Bytes, Entry, Ring, next_index}

-- The buffer of a slot is as large as its `size` says.
abbrev pub IsRoomy : Entry → Type 0
IsRoomy e = (b : Bytes) × (e.data_buf ≡ some b) × (e.size ≤ length b)

abbrev pub AllRoomy : List Entry → Type 0
AllRoomy [] = Unit
AllRoomy (e ∷ es) = IsRoomy e × AllRoomy es

-- A slot that holds the bytes `q`.
abbrev pub Filled : Entry → Bytes → Type 0
Filled e q =
    (b : Bytes) × (e.data_buf ≡ some b)
    × (e.content_length ≡ some (length q))
    × (length q ≤ e.size)
    × (take (length q) b ≡ q)

-- From slot `h` on, round the ring of `m` slots, stand the messages `qs`.
abbrev pub Holds : List Entry → ℕ → ℕ → List Bytes → Type 0
Holds es m h [] = Unit
Holds es m h (q ∷ qs) =
    ((e : Entry) × (get_elem? es h ≡ some e) × Filled e q) × Holds es m ((h + 1) % m) qs

-- The ring `r` of `2 ^ k` slots is at rest (no operation is under way) and holds `qs`.
pub record IsRing (k : ℕ) (r : Ring) (qs : List Bytes) : Type 0 where
  pub fits : 2 ^ k ≤ 2 ^ 31
  pub size_eq : r.size ≡ 2 ^ k
  pub mask_eq : r.mask ≡ 2 ^ k - 1
  pub slots : length r.ring ≡ 2 ^ k
  pub roomy : AllRoomy r.ring
  pub prod_rest : r.prod_tail ≡ r.prod_head
  pub cons_rest : r.cons_tail ≡ r.cons_head
  pub cons_lt : r.cons_head < 2 ^ k
  pub prod_eq : r.prod_head ≡ (r.cons_head + length qs) % 2 ^ k
  pub below : length qs < 2 ^ k
  pub held : Holds r.ring (2 ^ k) r.cons_head qs

pub get_some {ℓ} :
    {A : Type ℓ} (xs : List A) (i : ℕ) → i < length xs → (x : A) × (get_elem? xs i ≡ some x)
get_some [] i h = absurd (omega arith)
get_some (x ∷ xs) zero h = (x, refl)
get_some (x ∷ xs) (suc i) h = get_some xs i (omega arith)

pub roomy_at :
    (es : List Entry) (i : ℕ) (e : Entry) → AllRoomy es → get_elem? es i ≡ some e → IsRoomy e
roomy_at [] i e all h = cc
roomy_at (x ∷ es) zero e all h = ground arith
roomy_at (x ∷ es) (suc i) e all h = roomy_at es i e all.1 h

pub AllRoomy-set :
    (es : List Entry) (i : ℕ) (e : Entry) → AllRoomy es → IsRoomy e → AllRoomy (set es i e)
AllRoomy-set [] i e all new = tt
AllRoomy-set (x ∷ es) zero e all new = (new, all.1)
AllRoomy-set (x ∷ es) (suc i) e all new = (all.0, AllRoomy-set es i e all.1 new)

-- Fewer than `m` steps round the ring do not come back to the start.
pub ne_start : (m h n : ℕ) → h < m → suc n < m → (h + suc n) % m ≢ h
ne_start m h n hh hn = omega (arith, wrapped m h (suc n) hh (omega arith))

-- Filling the slot behind the messages adds one at the end.
pub Holds-set :
    (es : List Entry) (m h i : ℕ) (e : Entry) (q : Bytes) (qs : List Bytes)
    → length es ≡ m
    → h < m
    → length qs < m
    → i ≡ (h + length qs) % m
    → Filled e q
    → Holds es m h qs
    → Holds (set es i e) m h (qs ++ q ∷ [])
Holds-set es m h i e q [] len hh hn pos new held =
    let at : i ≡ h = pos ∙ omega (arith, wrapped m h 0 hh (omega arith)) in
    ((e, rw at (get_elem?-set_self es h e (omega arith)), new), tt)
Holds-set es m h i e q (q' ∷ qs) len hh hn pos new ((e', at, old), rest) =
    let ne : i ≢ h = λ p. ne_start m h (length qs) hh hn (sym pos ∙ p) in
    (
      (e', get_elem?-set_ne es e ne ∙ at, old),
      Holds-set es m ((h + 1) % m) i e q qs len (mod-below m h 1 hh (omega arith)) (omega arith)
          (pos ∙ sym (step_first m h (length qs) hh (omega arith))) new rest,
    )

-- `(i + 1) & mask` is the next place on the ring: neither the addition nor the mask loses anything.
pub next_index_lem :
    (k : ℕ) (r : Ring) (i : ℕ)
    → 2 ^ k ≤ 2 ^ 31
    → r.mask ≡ 2 ^ k - 1
    → i < 2 ^ k
    → next_index r i ≡ (i + 1) % 2 ^ k
next_index_lem k r i fits mask h =
    rw (mask, bit_and_mask) (ap (λ (t : ℕ). t % 2 ^ k) (mod-eq_of_lt (omega arith)))
