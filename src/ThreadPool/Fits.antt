-- ===== src/ThreadPool/Fits.antt =====
-- What holds of the pool of threadpool.cpp and of each thread in it, at every step.
use gittest.Prelude.{ℕ, ◌≤◌, ◌<◌, ◌≡◌, ◌≢◌, ◌∙◌, none, some, ◌++◌, length}
use gittest.ThreadPool.{
  Pool, Place, out, add_lock, add_test, add_waiting, add_enq, add_unlock, work_lock, work_test,
  work_waiting, work_deq, work_unlock, work_run,
}

-- The pool itself: the size is that of the queue and within its limit, and no task is lost, repeated
-- or overtaken.
pub record IsPool {T : Type 0} (max : ℕ) (p : Pool T) : Type 0 where
  pub counted : p.queue_size ≡ length p.task_queue
  pub bounded : p.queue_size ≤ max
  pub in_order : p.added ≡ p.taken ++ p.task_queue

module _ {T : Type 0} (max : ℕ) where
  -- A thread between lock and unlock holds the lock; it has room for its task, or finds a task.
  abbrev pub Fits : Pool T → ℕ → Place T → Type 0
  Fits p i out = Unit
  Fits p i (add_lock t) = Unit
  Fits p i (add_test t) = p.owner ≡ some i
  Fits p i (add_waiting t) = Unit
  Fits p i (add_enq t) = (p.owner ≡ some i) × (p.queue_size < max)
  Fits p i add_unlock = p.owner ≡ some i
  Fits p i work_lock = Unit
  Fits p i work_test = p.owner ≡ some i
  Fits p i work_waiting = Unit
  Fits p i work_deq = (p.owner ≡ some i) × (0 < p.queue_size)
  Fits p i (work_unlock t) = p.owner ≡ some i
  Fits p i (work_run t) = Unit

  -- A thread that does not hold the lock stands outside, whatever happens to the pool.
  pub Fits-outside :
      (p p' : Pool T) (j : ℕ) (q : Place T) → p.owner ≢ some j → Fits p j q → Fits p' j q
  Fits-outside p p' j out ne f = tt
  Fits-outside p p' j (add_lock t) ne f = tt
  Fits-outside p p' j (add_test t) ne f = absurd (ne f)
  Fits-outside p p' j (add_waiting t) ne f = tt
  Fits-outside p p' j (add_enq t) ne f = absurd (ne f.0)
  Fits-outside p p' j add_unlock ne f = absurd (ne f)
  Fits-outside p p' j work_lock ne f = tt
  Fits-outside p p' j work_test ne f = absurd (ne f)
  Fits-outside p p' j work_waiting ne f = tt
  Fits-outside p p' j work_deq ne f = absurd (ne f.0)
  Fits-outside p p' j (work_unlock t) ne f = absurd (ne f)
  Fits-outside p p' j (work_run t) ne f = tt

  -- Owner and size are all that matters of the pool.
  pub Fits-same :
      (p p' : Pool T) (j : ℕ) (q : Place T)
      → p'.owner ≡ p.owner
      → p'.queue_size ≡ p.queue_size
      → Fits p j q
      → Fits p' j q
  Fits-same p p' j out e f h = tt
  Fits-same p p' j (add_lock t) e f h = tt
  Fits-same p p' j (add_test t) e f h = e ∙ h
  Fits-same p p' j (add_waiting t) e f h = tt
  Fits-same p p' j (add_enq t) e f h = (e ∙ h.0, rw f h.1)
  Fits-same p p' j add_unlock e f h = e ∙ h
  Fits-same p p' j work_lock e f h = tt
  Fits-same p p' j work_test e f h = e ∙ h
  Fits-same p p' j work_waiting e f h = tt
  Fits-same p p' j work_deq e f h = (e ∙ h.0, rw f h.1)
  Fits-same p p' j (work_unlock t) e f h = e ∙ h
  Fits-same p p' j (work_run t) e f h = tt

  -- What a step of the thread `i` does to the pool, as far as the other threads are concerned: owner and
  -- size stay; or the lock was free; or it was held by `i`.
  pub data Spares (i : ℕ) (p p' : Pool T) : Type 0 where
    same : p'.owner ≡ p.owner → p'.queue_size ≡ p.queue_size → Spares i p p'
    unheld : p.owner ≡ none → Spares i p p'
    held : p.owner ≡ some i → Spares i p p'

  pub spared :
      (i j : ℕ) (p p' : Pool T) (q : Place T) → Spares i p p' → i ≢ j → Fits p j q → Fits p' j q
  spared i j p p' q (same e f) ne h = Fits-same p p' j q e f h
  spared i j p p' q (unheld e) ne h = Fits-outside p p' j q (λ e'. cc) h
  spared i j p p' q (held e) ne h = Fits-outside p p' j q (λ e'. ne (cc)) h
