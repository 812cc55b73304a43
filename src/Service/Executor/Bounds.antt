-- ===== src/Service/Executor/Bounds.antt =====
-- The semaphore of `BoundedExecutor` bounds the work that is under way.
use advisor_backend.Common.{ℕ, ◌+◌, ◌≤◌, ◌≡◌, refl, ◌∙◌, arith, Result, ok, err, subst}
use advisor_backend.Service.Executor.{
  BoundedExecutor, new_executor, release, Step, acquires, accepts, refuses, is_done, Reaches,
  none_made, made,
}

abbrev IsBalanced : BoundedExecutor → Type 0
IsBalanced e = e.permits + e.submitting + e.pending ≡ e.initial

-- A step does not raise, and leaves a balanced executor with the same bound.
abbrev Keeps : ℕ → Result BoundedExecutor → Type 0
Keeps initial (ok e) = (e.initial ≡ initial) × IsBalanced e
Keeps initial (err x) = ⊥

release-Keeps :
    (e : BoundedExecutor)
    → e.permits + e.submitting + e.pending + 1 ≡ e.initial
    → Keeps e.initial (release e)
unfolding release
release-Keeps e h = ground arith

Step-Keeps :
    {e : BoundedExecutor} {r : Result BoundedExecutor} → Step e r → IsBalanced e → Keeps e.initial r
Step-Keeps (acquires n h) b = (refl, omega arith)
Step-Keeps (accepts n h) b = (refl, omega arith)
Step-Keeps (refuses {e} n h) b = release-Keeps (record e { submitting = n }) (omega arith)
Step-Keeps (is_done {e} n h) b = release-Keeps (record e { pending = n }) (omega arith)

new-IsBalanced : (bound max_workers : ℕ) → IsBalanced (new_executor bound max_workers)
unfolding new_executor
new-IsBalanced bound max_workers = omega arith

Reaches-Keeps :
    {e e' : BoundedExecutor}
    → IsBalanced e
    → Reaches e e'
    → (e'.initial ≡ e.initial) × IsBalanced e'
Reaches-Keeps b none_made = (refl, b)
Reaches-Keeps b (made run step is) =
    let (same, b') = Reaches-Keeps b run in
    let (same', b'') = subst (Keeps _) is (Step-Keeps step b') in (same' ∙ same, b'')

-- Whatever its threads do, an executor never has more than `bound + max_workers` calls between
-- `acquire` and the end of their work, and no `release` of its semaphore raises.
pub executor_bounds :
    (bound max_workers : ℕ) (e : BoundedExecutor) (r : Result BoundedExecutor)
    → Reaches (new_executor bound max_workers) e
    → Step e r
    → (e.submitting + e.pending ≤ bound + max_workers) × ((next : BoundedExecutor) × (r ≡ ok next))
unfolding new_executor
executor_bounds bound max_workers e r run step =
    let (same, b) = Reaches-Keeps (new-IsBalanced bound max_workers) run in
    (omega arith, returns r (Step-Keeps step b))
  where
    returns :
        (r : Result BoundedExecutor) → Keeps e.initial r → (next : BoundedExecutor) × (r ≡ ok next)
    returns (ok next) k = (next, refl)
    returns (err x) k = absurd k
