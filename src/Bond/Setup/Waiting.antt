-- ===== src/Bond/Setup/Waiting.antt =====
-- The loop of `bond_port_init` in dpdk-examples/bond-kni/main-bond-kni.c that waits for the slaves.
use mathlib.Core.List.{append-nil, append_assoc}
use gittest.Prelude.{
  ℕ, zero, suc, ◌<◌, ◌≡◌, ◌⊎◌, ◌∙◌, refl, ap, Bool, true, false, List, [], ◌∷◌, ◌++◌, ◌==◌,
  Bool-cases, inl, inr, arith,
}
use gittest.Prelude.Int.{negsuc}
use gittest.Bond.Setup.{
  Call, active_slaves_get, sleep_one, Driver, Outcome, done, exited, counts, wait_active,
}

-- `k` times that the slaves are counted and a second is waited.
unfoldable pub polls : ℕ → ℕ → List Call
polls bond zero = []
polls bond (suc k) = active_slaves_get bond ∷ sleep_one ∷ polls bond k

module _ (d : Driver) (bond n : ℕ) where
  abbrev pub counted : List Call → ℕ → Bool
  counted t k = counts (d.answer (t ++ polls bond k) (active_slaves_get bond)) n

  -- The loop that waits for `n` slaves, with `w` seconds left, at least one: it asks once a second until they
  -- are all active, and ends the program with the code -1 when they have not been at any of `w` times.
  abbrev pub Waited : ℕ → List Call → Outcome → Type 0
  Waited w t o =
      ((k : ℕ) × (k < w)
        × (o ≡ done (t ++ (polls bond k ++ active_slaves_get bond ∷ [])))
        × (counted t k ≡ true)
        × ((j : ℕ) → j < k → counted t j ≡ false))
      ⊎ ((o ≡ exited (negsuc 0) (t ++ polls bond w)) × ((j : ℕ) → j < w → counted t j ≡ false))

  abbrev once : List Call
  once = active_slaves_get bond ∷ sleep_one ∷ []

  later : (t : List Call) (j : ℕ) (b : Bool) → counted (t ++ once) j ≡ b → counted t (suc j) ≡ b
  unfolding polls
  later t j b h = rw (append_assoc t once (polls bond j)) at h

  first :
      (t : List Call) (b : Bool)
      → counts (d.answer t (active_slaves_get bond)) n ≡ b
      → counted t 0 ≡ b
  unfolding polls
  first t b h = rw (append-nil t) h

  all_later :
      (t : List Call) (k : ℕ)
      → counts (d.answer t (active_slaves_get bond)) n ≡ false
      → ((j : ℕ) → j < k → counted (t ++ once) j ≡ false)
      → (j : ℕ) → j < suc k
      → counted t j ≡ false
  all_later t k unseen h zero lt = first t false unseen
  all_later t k unseen h (suc j) lt = later t j false (h j (omega arith))

  one_more :
      (w : ℕ) (t : List Call) (o : Outcome)
      → counts (d.answer t (active_slaves_get bond)) n ≡ false
      → Waited w (t ++ once) o
      → Waited (suc w) t o
  unfolding polls
  one_more w t o unseen (inl (k, lt, is, seen, before)) = inl (
    suc k,
    omega arith,
    is ∙ ap done (append_assoc t once (polls bond k ++ active_slaves_get bond ∷ [])),
    later t k true seen,
    all_later t k unseen before,
  )
  one_more w t o unseen (inr (is, never)) =
      inr (
        is ∙ ap (exited (negsuc 0)) (append_assoc t once (polls bond w)),
        all_later t w unseen never,
      )

  pub wait_active_lem : (w : ℕ) (t : List Call) → 0 < w → Waited w t (wait_active d bond n w t)
  unfolding wait_active polls
  wait_active_lem zero t h = absurd (omega arith)
  wait_active_lem (suc zero) t h =
      elim (Bool-cases (counts (d.answer t (active_slaves_get bond)) n)) [
        | inl seen ↦
            rw seen (inl (0, omega arith, refl, first t true seen, λ j lt. absurd (omega arith)))
        | inr unseen ↦ rw unseen (
            inr (
              ap (exited (negsuc 0))
                  (append_assoc t (active_slaves_get bond ∷ []) (sleep_one ∷ [])),
              all_later t 0 unseen (λ j lt. absurd (omega arith)),
            ))
      ]
  wait_active_lem (suc (suc w)) t h =
      let e = append_assoc t (active_slaves_get bond ∷ []) (sleep_one ∷ []) in
      let more : (suc w == 0) ≡ false = ground arith in
      elim (Bool-cases (counts (d.answer t (active_slaves_get bond)) n)) [
        | inl seen ↦
            rw seen (inl (0, omega arith, refl, first t true seen, λ j lt. absurd (omega arith)))
        | inr unseen ↦
            rw (unseen, more, e)
              (one_more (suc w) t (wait_active d bond n (suc w) (t ++ once)) unseen
                (wait_active_lem (suc w) (t ++ once) (omega arith)))
      ]
