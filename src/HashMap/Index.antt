-- ===== src/HashMap/Index.antt =====
-- The list in which hash_map.cpp looks for a key.
use gittest.Prelude.{
  ℕ, suc, ◌+◌, ◌-◌, ◌*◌, ◌%◌, ◌/◌, ◌<◌, ◌≡◌, refl, inl, inr, some, arith, false, zero, ==_iff, ◌==◌,
  Bool-cases,
}
use native.Mathlib.Omega.{div_any, mod_fact}
use gittest.Prelude.Int.{ℤ, pos, negsuc, pos_part, neg_part}
use gittest.HashMap.{entry_index}

-- For any hash code, negative or not, and a capacity above 0, the number of the list is below the capacity,
-- and differs from the hash code by a multiple of the capacity.
pub entry_index_lem :
    (hash_code : ℤ) (capacity : ℕ)
    → 0 < capacity
    → (i : ℕ) × (entry_index hash_code capacity ≡ some i)
      × (i < capacity)
      × ((a b : ℕ) × (pos_part hash_code + a * capacity ≡ neg_part hash_code + b * capacity + i))
unfolding entry_index
entry_index_lem h zero p = absurd (omega (arith, p))
entry_index_lem (pos h) (suc k) p = (
  h % suc k,
  (let nz : (suc k == 0) ≡ false = ground arith in rw nz refl),
  mod_fact h k,
  (0, h / suc k, omega (arith, div_any h (suc k))),
)
entry_index_lem (negsuc h) (suc k) p =
    let nz : (suc k == 0) ≡ false = ground arith in
    rw nz (elim (Bool-cases (suc h % suc k == 0)) [
      | inl z ↦ rw z (
        0,
        refl,
        p,
        (
          suc h / suc k,
          0,
          let e : (suc h % suc k) ≡ 0 = (==_iff (suc h % suc k) 0).0 z in
              omega (arith, e, div_any (suc h) (suc k)),
        ),
      )
      | inr z ↦ rw z (
        suc k - suc (suc h % suc k - 1),
        refl,
        omega (arith, mod_fact (suc h) k),
        (
          suc h / suc k + 1,
          0,
          let above : 0 < suc h % suc k = ground arith in
              omega (arith, above, mod_fact (suc h) k, div_any (suc h) (suc k)),
        ),
      )
    ])
