-- ===== src/Service/Executor.antt =====
-- `BoundedExecutor` of service/bounded_executor.py. The thread pool is left out but for what it does to
-- the semaphore: it accepts a call or raises, and an accepted call is done at some time.
pub mod Bounds
use advisor_backend.Common.{
  ℕ, zero, suc, ◌+◌, ◌≡◌, Bool, if◌then◌else◌, ltb, Result, ok, err, value_error, ◌>>=◌,
}

-- `initial` is the value that the semaphore began with; `submitting` counts the calls of `submit`
-- behind `acquire`, and `pending` the futures that are not done.
pub record BoundedExecutor : Type 0 where
  pub initial : ℕ
  pub permits : ℕ
  pub submitting : ℕ
  pub pending : ℕ

unfoldable pub new_executor : (bound max_workers : ℕ) → BoundedExecutor
new_executor bound max_workers = record {
  initial = bound + max_workers;
  permits = bound + max_workers;
  submitting = 0;
  pending = 0;
}

-- BoundedSemaphore.release: it raises where there are as many permits as at the beginning.
unfoldable pub release : BoundedExecutor → Result BoundedExecutor
release e =
    if ltb e.permits e.initial then ok (record e { permits = e.permits + 1 }) else err value_error

-- The steps of `submit`, which blocks in `acquire` while there is no permit, and of the callback of a
-- future that is done. A call that the pool refuses releases its permit, and so does a callback.
pub data Step : BoundedExecutor → Result BoundedExecutor → Type 0 where
  acquires :
      {e : BoundedExecutor} (n : ℕ)
      → e.permits ≡ suc n
      → Step e (ok (record e { permits = n; submitting = e.submitting + 1 }))
  accepts :
      {e : BoundedExecutor} (n : ℕ)
      → e.submitting ≡ suc n
      → Step e (ok (record e { submitting = n; pending = e.pending + 1 }))
  refuses :
      {e : BoundedExecutor} (n : ℕ)
      → e.submitting ≡ suc n
      → Step e (release (record e { submitting = n }))
  is_done :
      {e : BoundedExecutor} (n : ℕ)
      → e.pending ≡ suc n
      → Step e (release (record e { pending = n }))

-- What a run of steps from the first executor reaches.
pub data Reaches : BoundedExecutor → BoundedExecutor → Type 0 where
  none_made : {e : BoundedExecutor} → Reaches e e
  made :
      {e e' e'' : BoundedExecutor} {r : Result BoundedExecutor}
      → Reaches e e'
      → Step e' r
      → r ≡ ok e''
      → Reaches e e''
