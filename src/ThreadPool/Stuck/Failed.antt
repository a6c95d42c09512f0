-- ===== src/ThreadPool/Stuck/Failed.antt =====
-- The thread pool of threadpool.cpp after `queue_enq` has had no memory.
use mathlib.Core.Path.{subst}
use gittest.Prelude.{
  ℕ, ◌≤◌, ◌<◌, ◌≡◌, ◌≢◌, ◌∙◌, refl, sym, ap, Bool, true, false, none, some, List, [], ◌∷◌, ◌++◌,
  ◌==◌, ltb, leb, arith, Bool-cases, ==_iff, inl, inr,
}
use gittest.ThreadPool.{
  Pool, Place, out, add_lock, add_test, add_enq, add_unlock, work_lock, work_test, work_deq,
  lock_then, enq_task, deq_task, step, called, System, Turn, goes, calls, put, turn, run,
  threadpool, thread_count,
}
use gittest.ThreadPool.Safety.{inside}
use gittest.ThreadPool.Stuck.{IsStuck, run-IsStuck, run-append}

-- The thread `a` adds `t`, `queue_enq` fails, and the first worker finds the size above 0 and no task.
abbrev pub failed : {T : Type 0} → ℕ → T → List (Turn T)
failed a t =
    calls a t
    ∷ goes a true
    ∷ goes a true
    ∷ goes a false
    ∷ goes a true
    ∷ goes 0 true
    ∷ goes 0 true
    ∷ goes 0 true
    ∷ []

module _ {T : Type 0} (max n a : ℕ) (t : T) (room : 0 < max) (other : thread_count n ≤ a) where
  worker : ltb 0 (thread_count n) ≡ true
  worker = elim (Bool-cases (n == 0)) [ inl z ↦ rw z refl | inr nz ↦ rw nz (ground arith) ]

  -- Two threads and the pool, where the others stand outside.
  record At (p : Pool T) (here there : Place T) (s : System T) : Type 0 where
    pool_at : s.pool ≡ p
    adder_at : s.place a ≡ here
    worker_at : s.place 0 ≡ there
    others : (j : ℕ) → j ≢ 0 → j ≢ a → inside max (s.place j) ≡ false

  put_same : (i : ℕ) (q : Place T) (place : ℕ → Place T) → put i q place i ≡ q
  put_same i q place = let e : (i == i) ≡ true = ground arith in rw e refl

  put_other : (i j : ℕ) (q : Place T) (place : ℕ → Place T) → j ≢ i → put i q place j ≡ place j
  put_other i j q place ne = let e : (j == i) ≡ false = ground arith in rw e refl

  adder_steps :
      (memory : Bool) (p : Pool T) (here there : Place T) (s : System T)
      → 0 ≢ a
      → At p here there s
      → let r = step max memory a p here in At r.0 r.1 there (turn max (goes a memory) s)
  unfolding turn
  adder_steps memory p here there s ne at =
      let e = ap (λ q. step max memory a q here) at.pool_at in
      let f = ap (step max memory a s.pool) at.adder_at in
      let r = step max memory a s.pool (s.place a) in
      record {
        pool_at = ap (λ r. r.0) (f ∙ e);
        adder_at = put_same a r.1 s.place ∙ ap (λ r. r.1) (f ∙ e);
        worker_at = put_other a 0 r.1 s.place ne ∙ at.worker_at;
        others = λ j n0 na. ap (inside max) (put_other a j r.1 s.place na) ∙ at.others j n0 na;
      }

  worker_steps :
      (p : Pool T) (here there : Place T) (s : System T)
      → 0 ≢ a
      → At p here there s
      → let r = step max true 0 p there in At r.0 here r.1 (turn max (goes 0 true) s)
  unfolding turn
  worker_steps p here there s ne at =
      let e = ap (λ q. step max true 0 q there) at.pool_at in
      let f = ap (step max true 0 s.pool) at.worker_at in
      let r = step max true 0 s.pool (s.place 0) in
      record {
        pool_at = ap (λ r. r.0) (f ∙ e);
        adder_at = put_other 0 a r.1 s.place (λ e. ne (sym e)) ∙ at.adder_at;
        worker_at = put_same 0 r.1 s.place ∙ ap (λ r. r.1) (f ∙ e);
        others = λ j n0 na. ap (inside max) (put_other 0 j r.1 s.place n0) ∙ at.others j n0 na;
      }

  starts :
      0 ≢ a
      → At (threadpool {T = T} n).pool (add_lock t) work_lock (turn max (calls a t) (threadpool n))
  unfolding turn threadpool
  starts ne =
      let place = (threadpool {T = T} n).place in
      let e : place a ≡ out =
        let a_out : ltb a (thread_count n) ≡ false = ground arith in rw a_out refl in
      let q = called t (place a) in
      record {
        pool_at = refl;
        adder_at = put_same a q place ∙ ap (called t) e;
        worker_at = put_other a 0 q place ne ∙ rw worker refl;
        others = λ j n0 na.
            ap (inside max) (put_other a j q place na)
            ∙ elim (Bool-cases (ltb j (thread_count n))) [
              | inl is ↦ rw is refl
              | inr isnt ↦ rw isnt refl
            ];
      }

  -- The pool at the end: counted, but not there.
  abbrev after : Pool T
  after = record {
    owner = some 0;
    task_queue = [];
    queue_size = 1;
    added = [];
    taken = [];
    ran = [];
  }

  failed-At : At after out work_lock (run max (failed a t) (threadpool n))
  unfolding run step lock_then enq_task deq_task threadpool
  failed-At =
      let ne : 0 ≢ a = λ e. let w = worker in ground arith in
      let full : leb max 0 ≡ false = ground arith in
      let s1 = turn max (calls a t) (threadpool n) in
      let s2 = turn max (goes a true) s1 in
      let s3 = turn max (goes a true) s2 in
      let s4 = turn max (goes a false) s3 in
      let s5 = turn max (goes a true) s4 in
      let s6 = turn max (goes 0 true) s5 in
      let s7 = turn max (goes 0 true) s6 in
      let p : Pool T = (threadpool {T = T} n).pool in
      let p1 : Pool T = record p { owner = some a } in
      let p2 : Pool T = record p1 { queue_size = 1 } in
      let at2 : At p1 (add_test t) work_lock s2 =
        adder_steps true p (add_lock t) work_lock s1 ne (starts ne) in
      let at3 : At p1 (add_enq t) work_lock s3 =
        let e : step max true a p1 (add_test t) ≡ (p1, add_enq t) = rw full refl in
        subst (λ r. At r.0 r.1 work_lock s3) e
          (adder_steps true p1 (add_test t) work_lock s2 ne at2) in
      let at4 : At p2 add_unlock work_lock s4 =
        adder_steps false p1 (add_enq t) work_lock s3 ne at3 in
      let at5 = adder_steps true p2 add_unlock work_lock s4 ne at4 in
      let at6 : At after out work_test s6 =
        worker_steps (record p2 { owner = none }) out work_lock s5 ne at5 in
      let at7 : At after out work_deq s7 = worker_steps after out work_test s6 ne at6 in
      worker_steps after out work_deq s7 ne at7

  -- The lock is held, and by nobody who will give it back.
  failed-IsStuck : IsStuck max 0 (run max (failed a t) (threadpool n))
  failed-IsStuck = record {
    held = ap (λ p. p.owner) failed-At.pool_at;
    all_outside = λ j. elim (Bool-cases (j == 0)) [
      | inl zeroth ↦
          let e : j ≡ 0 = (==_iff j 0).0 zeroth in rw e (ap (inside max) failed-At.worker_at)
      | inr nonzero ↦ elim (Bool-cases (j == a)) [
        | inl adder ↦
            let e : j ≡ a = (==_iff j a).0 adder in rw e (ap (inside max) failed-At.adder_at)
        | inr third ↦ failed-At.others j (λ e. ground arith) (λ e. ground arith)
      ]
    ];
  }

  -- In a new pool with room, let a thread that is not a worker add a task, let `queue_enq` have no memory,
  -- and let the first worker go on. Then `add_task` has returned: the thread stands outside the pool. The
  -- size is 1 without a task in the queue; the worker holds the lock, has taken no task and stands where
  -- it asks for that lock. Whatever happens then, memory or not, the worker still holds the lock and no
  -- task is ever added or taken again.
  pub failed_add_stops_all :
      (us : List (Turn T))
      → let f = run max (failed a t) (threadpool n) in
        let s = run max (failed a t ++ us) (threadpool n) in
        ((f.place a ≡ out)
          × (f.place 0 ≡ work_lock)
          × (f.pool.owner ≡ some 0)
          × (f.pool.queue_size ≡ 1)
          × (f.pool.task_queue ≡ [])
          × (f.pool.taken ≡ []))
        × (s.pool.owner ≡ some 0)
        × (s.pool.added ≡ [])
        × (s.pool.taken ≡ [])
  failed_add_stops_all us =
      let (is, e, f) = run-IsStuck max 0 us (run max (failed a t) (threadpool n)) failed-IsStuck in
      let at = failed-At.pool_at in
      rw (run-append max 0 (failed a t) us (threadpool n)) (
        (
          failed-At.adder_at,
          failed-At.worker_at,
          ap (λ p. p.owner) at,
          ap (λ p. p.queue_size) at,
          ap (λ p. p.task_queue) at,
          ap (λ p. p.taken) at,
        ),
        is.held,
        e ∙ ap (λ p. p.added) at,
        f ∙ ap (λ p. p.taken) at,
      )
