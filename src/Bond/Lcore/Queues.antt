-- ===== src/Bond/Lcore/Queues.antt =====
-- The receive queues that `lcore_arg_init` of dpdk-examples/bond-kni/main-bond-kni.c gives to the cores.
use gittest.Prelude.{
  ℕ, zero, suc, ◌+◌, ◌≡◌, ◌≤◌, ◌<◌, ◌∙◌, refl, some, ◌==◌, ltb, if◌then◌else◌, arith, Bool-cases,
  inl, inr, ltb→lt,
}
use gittest.Bond.Lcore.{LcoreArg, init_loop, lcore_arg_init, rte_max_lcore}

-- The core that comes `k` steps after `c`.
abbrev pub core_after : (ℕ → ℕ) → ℕ → ℕ → ℕ
core_after next zero c = c
core_after next (suc k) c = core_after next k (next c)

module _ (next : ℕ → ℕ) (rises : (c : ℕ) → c < next c) where
  core_after-le : (k c : ℕ) → c ≤ core_after next k c
  core_after-le zero c = omega arith
  core_after-le (suc k) c = omega (arith, rises c, core_after-le k (next c))

  -- The cores from `c` on get the numbers from `n` on, and those below it keep theirs.
  abbrev Numbered : ℕ → ℕ → LcoreArg → LcoreArg → Type 0
  Numbered c n arg a =
      ((k : ℕ) → core_after next k c < 128 → a.ring_id (core_after next k c) ≡ n + k)
      × ((j : ℕ) → j < c → a.ring_id j ≡ arg.ring_id j)

  abbrev with_id : ℕ → ℕ → LcoreArg → LcoreArg
  with_id c n arg = record arg { ring_id = λ j. if j == c then n else arg.ring_id j }

  last-Numbered : (c n : ℕ) (arg : LcoreArg) → 128 ≤ next c → Numbered c n arg (with_id c n arg)
  last-Numbered c n arg h = (only, λ j lt. ground arith)
    where
      only :
          (k : ℕ)
          → core_after next k c < 128
          → (with_id c n arg).ring_id (core_after next k c) ≡ n + k
      only zero lt = ground arith
      only (suc k) lt = absurd (omega (arith, core_after-le k (next c)))

  more-Numbered :
      (c n : ℕ) (arg a : LcoreArg)
      → Numbered (next c) (suc n) (with_id c n arg) a
      → Numbered c n arg a
  more-Numbered c n arg a (ids, kept) =
      (all, λ j lt. kept j (omega (arith, rises c)) ∙ ground arith)
    where
      all : (k : ℕ) → core_after next k c < 128 → a.ring_id (core_after next k c) ≡ n + k
      all zero lt = kept c (rises c) ∙ ground arith
      all (suc k) lt = ids k lt ∙ omega arith

  init_loop_lem :
      (f c n : ℕ) (arg : LcoreArg)
      → c < 128
      → 128 ≤ f + c
      → (a : LcoreArg) × (init_loop f next c n arg ≡ some a) × Numbered c n arg a
  unfolding init_loop
  init_loop_lem zero c n arg lt le = absurd (omega arith)
  init_loop_lem (suc f) c n arg lt le = elim (Bool-cases (ltb (next c) rte_max_lcore)) [
    | inl more ↦
        let (a, done, numbered) =
          init_loop_lem f (next c) (suc n) (with_id c n arg) (ltb→lt _ _ more)
            (omega (arith, rises c)) in
        (a, rw more done, more-Numbered c n arg a numbered)
    | inr last ↦ (with_id c n arg, rw last refl, last-Numbered c n arg (ground arith))
  ]

  -- Where the next core always has a higher number, `lcore_arg_init` ends, and gives the queue `k` to the core
  -- that comes `k` steps after the first one, so no two of these cores poll the same queue; the cores below
  -- the first one are left with the queue 0.
  pub lcore_arg_init_lem :
      (core_id : ℕ)
      → core_id < 128
      → (arg : LcoreArg) × (lcore_arg_init next core_id ≡ some arg)
        × ((k : ℕ) → core_after next k core_id < 128 → arg.ring_id (core_after next k core_id) ≡ k)
        × ((c : ℕ) → c < core_id → arg.ring_id c ≡ 0)
  unfolding lcore_arg_init
  lcore_arg_init_lem core_id lt =
      let (a, done, (ids, kept)) = init_loop_lem 128 core_id 0 _ lt (omega arith) in
      (a, done, λ k h. ids k h ∙ omega arith, kept)
