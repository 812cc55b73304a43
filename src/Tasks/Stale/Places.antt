-- ===== src/Tasks/Stale/Places.antt =====
-- The rows of the jobs before and behind the check for stale jobs, place by place.
use advisor_backend.Common.{
  ℕ, Bool, true, false, List, [], ◌∷◌, ◌++◌, nat_eq, ◌==◌, All, ◌≡◌, refl, ◌⊎◌, inl, inr, any,
  if◌then◌else◌, sym, subst,
}
use advisor_backend.Tasks.Models.{Task, ExecutedTask, Job, World, timeout, save_job, update_job}
use advisor_backend.Tasks.Stale.{
  stale_jobs_of, timed_out_job, time_out_job, time_out_jobs, time_out_extask, time_out_extasks,
}
use advisor_backend.Tasks.Stale.Selected.{keeps_jobs, NotStale}

-- The row is as it was, or has TIMEOUT and the time of the check.
abbrev pub IsKeptOrTimedOut : ℕ → Job → Job → Type 0
IsKeptOrTimedOut now r r' = (r' ≡ r) ⊎ ((r'.status ≡ timeout) × (r'.updated_on ≡ now))

-- A row that was stale has TIMEOUT and the time of the check.
abbrev pub IsEnded : Task → ExecutedTask → ℕ → Job → Job → Type 0
IsEnded task e now r r' = NotStale task now e r ⊎ ((r'.status ≡ timeout) × (r'.updated_on ≡ now))

-- What holds of each row before and the row at its place behind; rows may be added at the end.
abbrev pub AtEachPlace : (Job → Job → Type 0) → List Job → List Job → Type 0
AtEachPlace R [] rows = Unit
AtEachPlace R (r ∷ before) [] = ⊥
AtEachPlace R (r ∷ before) (r' ∷ rows) = R r r' × AtEachPlace R before rows

pub all_kept : (now : ℕ) (rows : List Job) → AtEachPlace (IsKeptOrTimedOut now) rows rows
all_kept now [] = tt
all_kept now (r ∷ rows) = (inl refl, all_kept now rows)

AtEachPlace-save_job :
    (R : Job → Job → Type 0) (j : Job) (before rows : List Job)
    → ((r : Job) → R r j)
    → AtEachPlace R before rows
    → AtEachPlace R before (save_job j rows)
unfolding save_job
AtEachPlace-save_job R j before rows p h = go (any (λ (r : Job). r.id == j.id) rows)
  where
    updated : (bs rs : List Job) → AtEachPlace R bs rs → AtEachPlace R bs (update_job j rs)
    updated [] rs h = tt
    updated (b ∷ bs) [] h = h
    updated (b ∷ bs) (r ∷ rs) h = (either (r.id == j.id), updated bs rs h.1)
      where
        either : (same : Bool) → R b (if same then j else r)
        either true = p b
        either false = h.0

    longer : (bs rs : List Job) → AtEachPlace R bs rs → AtEachPlace R bs (rs ++ j ∷ [])
    longer [] rs h = tt
    longer (b ∷ bs) [] h = elim h [ ]
    longer (b ∷ bs) (r ∷ rs) h = (h.0, longer bs rs h.1)

    go : (found : Bool) → AtEachPlace R before (if found then update_job j rows else rows ++ j ∷ [])
    go true = updated before rows h
    go false = longer before rows h

module _ (task : Task) (now : ℕ) (before : List Job) where
  time_out_jobs-AtEachPlace :
      (js : List Job) (w : World)
      → AtEachPlace (IsKeptOrTimedOut now) before w.jobs
      → AtEachPlace (IsKeptOrTimedOut now) before (time_out_jobs task now js w).jobs
  unfolding time_out_jobs time_out_job
  time_out_jobs-AtEachPlace [] w h = h
  time_out_jobs-AtEachPlace (j ∷ js) w h =
      time_out_jobs-AtEachPlace js (time_out_job task now j w) (
        AtEachPlace-save_job (IsKeptOrTimedOut now) (timed_out_job now j) before w.jobs
          (λ r. inr (refl, refl)) h)

  pub time_out_extasks-AtEachPlace :
      (extasks : List ExecutedTask) (w : World)
      → AtEachPlace (IsKeptOrTimedOut now) before w.jobs
      → AtEachPlace (IsKeptOrTimedOut now) before (time_out_extasks task now extasks w).jobs
  unfolding time_out_extasks time_out_extask
  time_out_extasks-AtEachPlace [] w h = h
  time_out_extasks-AtEachPlace (x ∷ xs) w h =
      let js = stale_jobs_of task now x w.jobs in
      time_out_extasks-AtEachPlace xs (time_out_extask task now x w) (
        subst (AtEachPlace (IsKeptOrTimedOut now) before)
          (sym (keeps_jobs x true (time_out_jobs task now js w)))
          (time_out_jobs-AtEachPlace js w h))

-- A row that was kept and is not stale was not stale.
pub rows-IsEnded :
    (task : Task) (e : ExecutedTask) (now : ℕ) (before rows : List Job)
    → AtEachPlace (IsKeptOrTimedOut now) before rows
    → All (NotStale task now e) rows
    → AtEachPlace (IsEnded task e now) before rows
rows-IsEnded task e now [] rows h fresh = tt
rows-IsEnded task e now (r ∷ before) [] h fresh = h
rows-IsEnded task e now (r ∷ before) (r' ∷ rows) h fresh =
    (row h.0, rows-IsEnded task e now before rows h.1 fresh.1)
  where
    row : IsKeptOrTimedOut now r r' → IsEnded task e now r r'
    row (inl same) = inl (subst (NotStale task now e) same fresh.0)
    row (inr ended) = inr ended
