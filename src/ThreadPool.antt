-- ===== src/ThreadPool.antt =====
-- threadpool.cpp and threadpool.h: threads that add tasks and threads that carry them out, over one queue.
-- A task, which is a function and its argument, is of any type `T`.
pub mod Fits
pub mod Safety
pub mod Stuck
use gittest.Prelude.{
  ℕ, zero, suc, ◌+◌, ◌-◌, Bool, true, false, Option, none, some, List, [], ◌∷◌, ◌++◌, ◌==◌, ltb,
  leb, if◌then◌else◌,
}

-- The fields of the class that change: who holds `lock`, the queue, `queue_size`; and, to state what
-- happens, the tasks added, taken and carried out so far.
pub record Pool (T : Type 0) : Type 0 where
  pub owner : Option ℕ
  pub task_queue : List T
  pub queue_size : ℕ
  pub added : List T
  pub taken : List T
  pub ran : List T

-- Where a thread stands: in `add_task`, with its task, or in `work`.
pub data Place (T : Type 0) : Type 0 where
  out : Place T
  add_lock : T → Place T
  add_test : T → Place T
  add_waiting : T → Place T
  add_enq : T → Place T
  add_unlock : Place T
  work_lock : Place T
  work_test : Place T
  work_waiting : Place T
  work_deq : Place T
  work_unlock : T → Place T
  work_run : T → Place T

abbrev pub Moved : Type 0 → Type 0
Moved T = Pool T × Place T

module _ {T : Type 0} where
  -- `pthread_mutex_lock`, which blocks unless the lock is free, also for the thread that holds it. The first
  -- argument is the owner.
  pub lock_then : Option ℕ → ℕ → Pool T → Place T → Place T → Moved T
  lock_then none i p here next = (record p { owner = some i }, next)
  lock_then (some j) i p here next = (p, here)

  abbrev pub unlock : Pool T → Pool T
  unlock p = record p { owner = none }

  -- `queue_enq`, which fails where there is no memory, and `queue_size ++` either way.
  pub enq_task : Bool → T → Pool T → Pool T
  enq_task true t p = record p {
    task_queue = p.task_queue ++ t ∷ [];
    queue_size = p.queue_size + 1;
    added = p.added ++ t ∷ [];
  }
  enq_task false t p = record p { queue_size = p.queue_size + 1 }

  -- `queue_deq`; on an empty queue it fails, and `continue` goes back to the lock.
  pub deq_task : List T → Pool T → Moved T
  deq_task [] p = (p, work_lock)
  deq_task (t ∷ ts) p = (
    record p { task_queue = ts; queue_size = p.queue_size - 1; taken = p.taken ++ t ∷ [] },
    work_unlock t,
  )

  -- One step of the thread `i`, in a pool of `queue_max_size`. A wait on a condition gives the lock up.
  pub step : ℕ → Bool → ℕ → Pool T → Place T → Moved T
  unfolding lock_then enq_task deq_task
  step queue_max_size memory i p out = (p, out)
  step queue_max_size memory i p (add_lock t) = lock_then p.owner i p (add_lock t) (add_test t)
  step queue_max_size memory i p (add_test t) =
      if leb queue_max_size p.queue_size then (unlock p, add_waiting t) else (p, add_enq t)
  step queue_max_size memory i p (add_waiting t) = (p, add_waiting t)
  step queue_max_size memory i p (add_enq t) = (enq_task memory t p, add_unlock)
  step queue_max_size memory i p add_unlock = (unlock p, out)
  step queue_max_size memory i p work_lock = lock_then p.owner i p work_lock work_test
  step queue_max_size memory i p work_test =
      if leb p.queue_size 0 then (unlock p, work_waiting) else (p, work_deq)
  step queue_max_size memory i p work_waiting = (p, work_waiting)
  step queue_max_size memory i p work_deq = deq_task p.task_queue p
  step queue_max_size memory i p (work_unlock t) = (unlock p, work_run t)
  step queue_max_size memory i p (work_run t) = (record p { ran = p.ran ++ t ∷ [] }, work_lock)

  -- A thread that waits on a condition wakes up, whether signalled or not, and takes the lock again before
  -- it looks at its condition again.
  abbrev pub woken : Place T → Place T
  woken (add_waiting t) = add_lock t
  woken work_waiting = work_lock
  woken q = q

  -- A call of `add_task`, by a thread that is in no other.
  abbrev pub called : T → Place T → Place T
  called t out = add_lock t
  called t q = q

-- `thread_num`: at least one.
abbrev pub thread_count : ℕ → ℕ
thread_count n = if n == 0 then 1 else n

pub record System (T : Type 0) : Type 0 where
  pub pool : Pool T
  pub place : ℕ → Place T

-- What happens next: a thread takes a step, with memory or without, wakes up, or calls `add_task`.
pub data Turn (T : Type 0) : Type 0 where
  goes : ℕ → Bool → Turn T
  wakes : ℕ → Turn T
  calls : ℕ → T → Turn T

module _ {T : Type 0} where
  abbrev pub put : ℕ → Place T → (ℕ → Place T) → ℕ → Place T
  put i q place j = if j == i then q else place j

  pub turn : ℕ → Turn T → System T → System T
  unfolding step
  turn queue_max_size (goes i memory) s =
      let (p, q) = step queue_max_size memory i s.pool (s.place i) in
      record { pool = p; place = put i q s.place }
  turn queue_max_size (wakes i) s = record s { place = put i (woken (s.place i)) s.place }
  turn queue_max_size (calls i t) s = record s { place = put i (called t (s.place i)) s.place }

  unfoldable pub run : ℕ → List (Turn T) → System T → System T
  unfolding turn
  run queue_max_size [] s = s
  run queue_max_size (u ∷ us) s = run queue_max_size us (turn queue_max_size u s)

  -- Behind the constructor: its threads are about to work.
  unfoldable pub threadpool : ℕ → System T
  threadpool threadnum = record {
    pool = record {
      owner = none;
      task_queue = [];
      queue_size = 0;
      added = [];
      taken = [];
      ran = [];
    };
    place = λ i. if ltb i (thread_count threadnum) then work_lock else out;
  }
