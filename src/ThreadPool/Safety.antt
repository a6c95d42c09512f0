-- ===== src/ThreadPool/Safety.antt =====
-- The thread pool of threadpool.cpp under any order of steps, as long as there is memory.
use mathlib.Core.List.{append_assoc}
use gittest.Prelude.{
  ℕ, ◌<◌, ◌≡◌, ◌∙◌, refl, sym, ap, Bool, true, false, Option, none, some, List, [], ◌∷◌, ◌++◌, ◌==◌,
  ltb, leb, length, length-append, arith, Bool-cases, ==_iff, inl, inr,
}
use gittest.ThreadPool.{
  Pool, Place, out, add_lock, add_test, add_waiting, add_enq, add_unlock, work_lock, work_test,
  work_waiting, work_deq, work_unlock, work_run, Moved, lock_then, unlock, enq_task, deq_task, step,
  woken, called, System, Turn, goes, wakes, calls, put, turn, run, threadpool, thread_count,
}
use gittest.ThreadPool.Fits.{IsPool, Fits, Spares, same, unheld, held, spared}

module _ {T : Type 0} (max : ℕ) where
  -- A step keeps the pool and the thread, and spares the others.
  abbrev Kept : ℕ → Pool T → Moved T → Type 0
  Kept i p r = IsPool max r.0 × Fits max r.0 i r.1 × Spares max i p r.0

  owned : (o : Option ℕ) (p : Pool T) → IsPool max p → IsPool max (record p { owner = o })
  owned o p is = record { counted = is.counted; bounded = is.bounded; in_order = is.in_order }

  -- A thread that has found a task takes the oldest.
  deq-Kept :
      (i : ℕ) (p : Pool T) (ts : List T)
      → IsPool max p
      → p.owner ≡ some i
      → 0 < p.queue_size
      → p.task_queue ≡ ts
      → Kept i p (deq_task ts p)
  unfolding deq_task
  deq-Kept i p [] is h found e = absurd (omega (arith, is.counted, ap length e))
  deq-Kept i p (t ∷ ts) is h found e = (
    record {
      counted = omega (arith, is.counted, ap length e);
      bounded = omega (arith, is.bounded);
      in_order = is.in_order ∙ ap (λ l. p.taken ++ l) e ∙ sym (append_assoc p.taken (t ∷ []) ts);
    },
    h,
    held h,
  )

  lock-Kept :
      (i : ℕ) (p : Pool T) (here next : Place T) (o : Option ℕ)
      → IsPool max p
      → Fits max p i here
      → p.owner ≡ o
      → ((p' : Pool T) → p'.owner ≡ some i → Fits max p' i next)
      → Kept i p (lock_then o i p here next)
  unfolding lock_then
  lock-Kept i p here next none is h free f =
      (owned (some i) p is, f (record p { owner = some i }) refl, unheld free)
  lock-Kept i p here next (some j) is h taken f = (is, h, same refl refl)

  unlock-Kept :
      (i : ℕ) (p : Pool T) (q : Place T)
      → IsPool max p
      → p.owner ≡ some i
      → ((p' : Pool T) → Fits max p' i q)
      → Kept i p (unlock p, q)
  unlock-Kept i p q is h f = (owned none p is, f (unlock p), held h)

  -- With memory, a step of a thread keeps everything.
  step-Kept :
      (i : ℕ) (p : Pool T) (q : Place T)
      → IsPool max p
      → Fits max p i q
      → Kept i p (step max true i p q)
  unfolding step enq_task
  step-Kept i p out is h = (is, tt, same refl refl)
  step-Kept i p (add_lock t) is h =
      lock-Kept i p (add_lock t) (add_test t) p.owner is h refl (λ p' e. e)
  step-Kept i p (add_test t) is h = elim (Bool-cases (leb max p.queue_size)) [
    | inl full ↦ rw full (unlock-Kept i p (add_waiting t) is h (λ p'. tt))
    | inr room ↦ rw room (is, (h, ground arith), same refl refl)
  ]
  step-Kept i p (add_waiting t) is h = (is, tt, same refl refl)
  step-Kept i p (add_enq t) is h = (
    record {
      counted = omega (arith, is.counted, length-append p.task_queue (t ∷ []));
      bounded = omega (arith, h);
      in_order = ap (λ l. l ++ t ∷ []) is.in_order ∙ append_assoc p.taken p.task_queue (t ∷ []);
    },
    h.0,
    held h.0,
  )
  step-Kept i p add_unlock is h = unlock-Kept i p out is h (λ p'. tt)
  step-Kept i p work_lock is h = lock-Kept i p work_lock work_test p.owner is h refl (λ p' e. e)
  step-Kept i p work_test is h = elim (Bool-cases (leb p.queue_size 0)) [
    | inl empty ↦ rw empty (unlock-Kept i p work_waiting is h (λ p'. tt))
    | inr some_task ↦ rw some_task (is, (h, ground arith), same refl refl)
  ]
  step-Kept i p work_waiting is h = (is, tt, same refl refl)
  step-Kept i p work_deq is h = deq-Kept i p p.task_queue is h.0 h.1 refl
  step-Kept i p (work_unlock t) is h = unlock-Kept i p (work_run t) is h (λ p'. tt)
  step-Kept i p (work_run t) is h = (
    record { counted = is.counted; bounded = is.bounded; in_order = is.in_order },
    tt,
    same refl refl,
  )

  -- The whole system.
  pub record IsSystem (s : System T) : Type 0 where
    pub is_pool : IsPool max s.pool
    pub fits : (i : ℕ) → Fits max s.pool i (s.place i)

  put-Fits :
      (i : ℕ) (p p' : Pool T) (q : Place T) (place : ℕ → Place T)
      → Spares max i p p'
      → Fits max p' i q
      → ((j : ℕ) → Fits max p j (place j))
      → (j : ℕ) → Fits max p' j (put i q place j)
  put-Fits i p p' q place sp f h j = elim (Bool-cases (j == i)) [
    | inl is ↦ rw is (let e : j ≡ i = (==_iff j i).0 is in rw e f)
    | inr other ↦ rw other (spared max i j p p' (place j) sp (λ e. ground arith) (h j))
  ]

  woken-Fits : (p : Pool T) (i : ℕ) (q : Place T) → Fits max p i q → Fits max p i (woken q)
  woken-Fits p i (add_waiting t) h = tt
  woken-Fits p i work_waiting h = tt
  woken-Fits p i out h = tt
  woken-Fits p i (add_lock t) h = tt
  woken-Fits p i (add_test t) h = h
  woken-Fits p i (add_enq t) h = h
  woken-Fits p i add_unlock h = h
  woken-Fits p i work_lock h = tt
  woken-Fits p i work_test h = h
  woken-Fits p i work_deq h = h
  woken-Fits p i (work_unlock t) h = h
  woken-Fits p i (work_run t) h = tt

  called-Fits :
      (p : Pool T) (i : ℕ) (t : T) (q : Place T) → Fits max p i q → Fits max p i (called t q)
  called-Fits p i t out h = tt
  called-Fits p i t (add_lock u) h = tt
  called-Fits p i t (add_test u) h = h
  called-Fits p i t (add_waiting u) h = tt
  called-Fits p i t (add_enq u) h = h
  called-Fits p i t add_unlock h = h
  called-Fits p i t work_lock h = tt
  called-Fits p i t work_test h = h
  called-Fits p i t work_waiting h = tt
  called-Fits p i t work_deq h = h
  called-Fits p i t (work_unlock u) h = h
  called-Fits p i t (work_run u) h = tt

  -- Every turn has memory.
  abbrev pub HasMemory : List (Turn T) → Type 0
  HasMemory [] = Unit
  HasMemory (goes i memory ∷ us) = (memory ≡ true) × HasMemory us
  HasMemory (wakes i ∷ us) = HasMemory us
  HasMemory (calls i t ∷ us) = HasMemory us

  turn-IsSystem : (i : ℕ) (s : System T) → IsSystem s → IsSystem (turn max (goes i true) s)
  unfolding turn
  turn-IsSystem i s is =
      let (kept, here, sp) = step-Kept i s.pool (s.place i) is.is_pool (is.fits i) in
      let (p, q) = step max true i s.pool (s.place i) in
      record { is_pool = kept; fits = put-Fits i s.pool p q s.place sp here is.fits }

  moved-IsSystem :
      (i : ℕ) (q : Place T) (s : System T)
      → Fits max s.pool i q
      → IsSystem s
      → IsSystem (record s { place = put i q s.place })
  moved-IsSystem i q s h is = record {
    is_pool = is.is_pool;
    fits = put-Fits i s.pool s.pool q s.place (same refl refl) h is.fits;
  }

  pub run-IsSystem :
      (us : List (Turn T)) (s : System T) → HasMemory us → IsSystem s → IsSystem (run max us s)
  unfolding run turn
  run-IsSystem [] s m is = is
  run-IsSystem (goes i memory ∷ us) s (m, ms) is =
      run-IsSystem us (turn max (goes i memory) s) ms (rw m (turn-IsSystem i s is))
  run-IsSystem (wakes i ∷ us) s ms is =
      run-IsSystem us (turn max (wakes i) s) ms
        (moved-IsSystem i (woken (s.place i)) s (woken-Fits s.pool i (s.place i) (is.fits i)) is)
  run-IsSystem (calls i t ∷ us) s ms is = run-IsSystem us (turn max (calls i t) s) ms (
      moved-IsSystem i (called t (s.place i)) s (called-Fits s.pool i t (s.place i) (is.fits i)) is)

  start-IsSystem : (n : ℕ) → IsSystem (threadpool {T = T} n)
  unfolding threadpool
  start-IsSystem n = record {
    is_pool = record { counted = refl; bounded = omega arith; in_order = refl };
    fits = λ i. elim (Bool-cases (ltb i (thread_count n))) [
      | inl worker ↦ rw worker tt
      | inr other ↦ rw other tt
    ];
  }

  -- Between lock and unlock.
  abbrev pub inside : Place T → Bool
  inside out = false
  inside (add_lock t) = false
  inside (add_test t) = true
  inside (add_waiting t) = false
  inside (add_enq t) = true
  inside add_unlock = true
  inside work_lock = false
  inside work_test = true
  inside work_waiting = false
  inside work_deq = true
  inside (work_unlock t) = true
  inside (work_run t) = false

  inside-owner :
      (p : Pool T) (i : ℕ) (q : Place T) → inside q ≡ true → Fits max p i q → p.owner ≡ some i
  inside-owner p i out n h = cc
  inside-owner p i (add_lock t) n h = cc
  inside-owner p i (add_test t) n h = h
  inside-owner p i (add_waiting t) n h = cc
  inside-owner p i (add_enq t) n h = h.0
  inside-owner p i add_unlock n h = h
  inside-owner p i work_lock n h = cc
  inside-owner p i work_test n h = h
  inside-owner p i work_waiting n h = cc
  inside-owner p i work_deq n h = h.0
  inside-owner p i (work_unlock t) n h = h
  inside-owner p i (work_run t) n h = cc

  -- From the construction on, whatever threads call `add_task`, in whatever order the threads take steps and
  -- wake up, with memory for the queue: `queue_size` is the length of the queue and at most the limit, the
  -- tasks added are, in order, those taken by the workers followed by those in the queue, and at most one
  -- thread at a time is between lock and unlock.
  pub threadpool_lem :
      (n : ℕ) (us : List (Turn T))
      → HasMemory us
      → let s = run max us (threadpool n) in
        IsPool max s.pool
        × ((i j : ℕ) → inside (s.place i) ≡ true → inside (s.place j) ≡ true → i ≡ j)
  threadpool_lem n us m =
      let s = run max us (threadpool n) in
      let is = run-IsSystem us (threadpool n) m (start-IsSystem n) in
      (
        is.is_pool,
        λ i j a b.
            let e = inside-owner s.pool i (s.place i) a (is.fits i) in
            let f = inside-owner s.pool j (s.place j) b (is.fits j) in cc,
      )
