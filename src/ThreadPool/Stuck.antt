-- ===== src/ThreadPool/Stuck.antt =====
-- A thread pool of threadpool.cpp whose lock is never given back.
pub mod Failed
use gittest.Prelude.{
  ℕ, zero, suc, ◌+◌, ◌≤◌, ◌<◌, ◌≡◌, ◌≢◌, ◌∙◌, refl, sym, ap, Bool, true, false, Option, none, some,
  List, [], ◌∷◌, ◌++◌, ◌==◌, ltb, leb, if◌then◌else◌, arith, Bool-cases, ==_iff, inl, inr,
}
use gittest.ThreadPool.{
  Pool, Place, out, add_lock, add_test, add_waiting, add_enq, add_unlock, work_lock, work_test,
  work_waiting, work_deq, work_unlock, work_run, lock_then, enq_task, deq_task, step, woken, called,
  System, Turn, goes, wakes, calls, put, turn, run, threadpool, thread_count,
}
use gittest.ThreadPool.Safety.{inside}

module _ {T : Type 0} (max : ℕ) (w : ℕ) where
  -- The lock is held by `w`, but no thread is between lock and unlock.
  pub record IsStuck (s : System T) : Type 0 where
    pub held : s.pool.owner ≡ some w
    pub all_outside : (j : ℕ) → inside max (s.place j) ≡ false

  -- A thread outside can neither take the lock nor change what was added or taken.
  outside_step :
      (memory : Bool) (i : ℕ) (p : Pool T) (q : Place T)
      → p.owner ≡ some w
      → inside max q ≡ false
      → let r = step max memory i p q in
        (r.0.owner ≡ p.owner)
        × (r.0.added ≡ p.added)
        × (r.0.taken ≡ p.taken)
        × (inside max r.1 ≡ false)
  unfolding step lock_then
  outside_step memory i p out h o = (refl, refl, refl, refl)
  outside_step memory i p (add_lock t) h o = rw h (refl, refl, refl, refl)
  outside_step memory i p (add_test t) h o = cc
  outside_step memory i p (add_waiting t) h o = (refl, refl, refl, refl)
  outside_step memory i p (add_enq t) h o = cc
  outside_step memory i p add_unlock h o = cc
  outside_step memory i p work_lock h o = rw h (refl, refl, refl, refl)
  outside_step memory i p work_test h o = cc
  outside_step memory i p work_waiting h o = (refl, refl, refl, refl)
  outside_step memory i p work_deq h o = cc
  outside_step memory i p (work_unlock t) h o = cc
  outside_step memory i p (work_run t) h o = (refl, refl, refl, refl)

  put_outside :
      (i : ℕ) (q : Place T) (place : ℕ → Place T)
      → inside max q ≡ false
      → ((j : ℕ) → inside max (place j) ≡ false)
      → (j : ℕ) → inside max (put i q place j) ≡ false
  put_outside i q place o os j = elim (Bool-cases (j == i)) [
    | inl is ↦ rw is o
    | inr other ↦ rw other (os j)
  ]

  woken_outside : (q : Place T) → inside max q ≡ false → inside max (woken q) ≡ false
  woken_outside (add_waiting t) o = refl
  woken_outside work_waiting o = refl
  woken_outside out o = o
  woken_outside (add_lock t) o = o
  woken_outside (add_test t) o = o
  woken_outside (add_enq t) o = o
  woken_outside add_unlock o = o
  woken_outside work_lock o = o
  woken_outside work_test o = o
  woken_outside work_deq o = o
  woken_outside (work_unlock t) o = o
  woken_outside (work_run t) o = o

  called_outside : (t : T) (q : Place T) → inside max q ≡ false → inside max (called t q) ≡ false
  called_outside t out o = refl
  called_outside t (add_waiting u) o = o
  called_outside t work_waiting o = o
  called_outside t (add_lock u) o = o
  called_outside t (add_test u) o = o
  called_outside t (add_enq u) o = o
  called_outside t add_unlock o = o
  called_outside t work_lock o = o
  called_outside t work_test o = o
  called_outside t work_deq o = o
  called_outside t (work_unlock u) o = o
  called_outside t (work_run u) o = o

  -- What a turn leaves of a stuck system.
  turn-IsStuck :
      (u : Turn T) (s : System T)
      → IsStuck s
      → let s' = turn max u s in
        IsStuck s' × (s'.pool.added ≡ s.pool.added) × (s'.pool.taken ≡ s.pool.taken)
  unfolding turn
  turn-IsStuck (goes i memory) s is =
      let (o, a, t, q) = outside_step memory i s.pool (s.place i) is.held (is.all_outside i) in
      (
        record {
          held = o ∙ is.held;
          all_outside =
              put_outside i (step max memory i s.pool (s.place i)).1 s.place q is.all_outside;
        },
        a,
        t,
      )
  turn-IsStuck (wakes i) s is = (
    record {
      held = is.held;
      all_outside =
          put_outside i (woken (s.place i)) s.place (woken_outside (s.place i) (is.all_outside i))
            is.all_outside;
    },
    refl,
    refl,
  )
  turn-IsStuck (calls i t) s is = (
    record {
      held = is.held;
      all_outside =
          put_outside i (called t (s.place i)) s.place
            (called_outside t (s.place i) (is.all_outside i)) is.all_outside;
    },
    refl,
    refl,
  )

  -- And so for good.
  pub run-IsStuck :
      (us : List (Turn T)) (s : System T)
      → IsStuck s
      → let s' = run max us s in
        IsStuck s' × (s'.pool.added ≡ s.pool.added) × (s'.pool.taken ≡ s.pool.taken)
  unfolding run
  run-IsStuck [] s is = (is, refl, refl)
  run-IsStuck (u ∷ us) s is =
      let (is', a, t) = turn-IsStuck u s is in
      let (is'', b, c) = run-IsStuck us (turn max u s) is' in (is'', b ∙ a, c ∙ t)

  pub run-append :
      (us vs : List (Turn T)) (s : System T) → run max (us ++ vs) s ≡ run max vs (run max us s)
  unfolding run
  run-append [] vs s = refl
  run-append (u ∷ us) vs s = run-append us vs (turn max u s)
