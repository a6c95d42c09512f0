-- ===== src/Tests/Threads.antt =====
-- The thread pool of threadpool.cpp: one worker, 0, and a thread 1 that adds tasks.
use gittest.Prelude.{ℕ, ◌≡◌, refl, true, some, List, [], ◌∷◌, ◌++◌, arith}
use gittest.ThreadPool.{out, work_lock, Turn, goes, wakes, calls, run, threadpool}
use gittest.ThreadPool.Fits.{IsPool}
use gittest.ThreadPool.Safety.{inside, threadpool_lem}
use gittest.ThreadPool.Stuck.Failed.{failed, failed_add_stops_all}

-- The worker waits for a task, the thread 1 adds one, and the worker wakes up and takes it.
abbrev turns : List (Turn ℕ)
turns =
    goes 0 true
    ∷ goes 0 true
    ∷ calls 1 7
    ∷ goes 1 true
    ∷ goes 1 true
    ∷ goes 1 true
    ∷ goes 1 true
    ∷ wakes 0
    ∷ goes 0 true
    ∷ goes 0 true
    ∷ goes 0 true
    ∷ []

taken_once : (run 3 turns (threadpool {T = ℕ} 1)).pool.taken ≡ 7 ∷ []
unfolding run threadpool
taken_once = refl

threadpool_lem_example :
    let s = run 3 turns (threadpool {T = ℕ} 1) in
    IsPool 3 s.pool
    × ((i j : ℕ) → inside 3 (s.place i) ≡ true → inside 3 (s.place j) ≡ true → i ≡ j)
threadpool_lem_example =
    threadpool_lem 3 1 turns
      (refl, (refl, (refl, (refl, (refl, (refl, (refl, (refl, (refl, tt)))))))))

failed_add_stops_all_example :
    let f = run 3 (failed 1 7) (threadpool {T = ℕ} 1) in
    let s = run 3 (failed 1 7 ++ turns) (threadpool {T = ℕ} 1) in
    ((f.place 1 ≡ out)
      × (f.place 0 ≡ work_lock)
      × (f.pool.owner ≡ some 0)
      × (f.pool.queue_size ≡ 1)
      × (f.pool.task_queue ≡ [])
      × (f.pool.taken ≡ []))
    × (s.pool.owner ≡ some 0)
    × (s.pool.added ≡ [])
    × (s.pool.taken ≡ [])
failed_add_stops_all_example = failed_add_stops_all 3 1 1 7 (omega arith) (omega arith) turns
