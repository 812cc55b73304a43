-- ===== src/Tasks/Stale/TimedOut.antt =====
-- Behind the check for stale jobs no job is stale: those that were have timed out.
use advisor_backend.Common.{
  ℕ, true, List, [], ◌∷◌, ◌++◌, nat_eq, ◌==◌, All, ◌≡◌, refl, ◌⊎◌, inl, inr, Bool-cases, arith, sym,
  subst,
}
use advisor_backend.Tasks.Models.{Task, ExecutedTask, Job, World}
use advisor_backend.Tasks.Stale.{
  is_stale, stale_jobs_of, once_for_each, timed_out_extasks, timed_out_job, time_out_job,
  time_out_jobs, time_out_extask, time_out_extasks, check_stale_jobs_for,
}
use advisor_backend.Tasks.Stale.Selected.{
  All-save_job, keeps_jobs, NotStale, IsAmong, All-imp, not_among, selected,
}
use advisor_backend.Tasks.Stale.Places.{
  IsKeptOrTimedOut, IsEnded, AtEachPlace, all_kept, time_out_extasks-AtEachPlace, rows-IsEnded,
}

module _ (task : Task) (now : ℕ) where
  timed_out-NotStale :
      (extask : ExecutedTask) (job : Job) → NotStale task now extask (timed_out_job now job)
  timed_out-NotStale extask job = ground arith

  pub time_out_jobs-All :
      (P : Job → Type 0) (js : List Job) (w : World)
      → ((j : Job) → P (timed_out_job now j))
      → All (λ r. IsAmong js r ⊎ P r) w.jobs
      → All P (time_out_jobs task now js w).jobs
  unfolding time_out_jobs time_out_job
  time_out_jobs-All P [] w p h = All-imp (λ r. IsAmong [] r ⊎ P r) P w.jobs (λ r. not_among P r) h
  time_out_jobs-All P (j ∷ js) w p h = time_out_jobs-All P js (time_out_job task now j w) p (
      All-save_job (λ r. IsAmong js r ⊎ P r) (timed_out_job now j) w.jobs
        (All-imp (λ r. IsAmong (j ∷ js) r ⊎ P r)
          (λ r. ((r.id == j.id) ≡ true) ⊎ (IsAmong js r ⊎ P r)) w.jobs first h)
        (inr (p j)))
    where
      first : (r : Job) → IsAmong (j ∷ js) r ⊎ P r → ((r.id == j.id) ≡ true) ⊎ (IsAmong js r ⊎ P r)
      first r (inl among) = elim (Bool-cases (r.id == j.id)) [
        | inl same ↦ inl same
        | inr other ↦ inr (inl (ground (arith, other, among)))
      ]
      first r (inr q) = inr (inr q)

  -- The jobs of an executed task are timed out, and those of the others do not get stale.
  time_out_extask_self :
      (extask : ExecutedTask) (w : World)
      → All (NotStale task now extask) (time_out_extask task now extask w).jobs
  unfolding time_out_extask
  time_out_extask_self extask w =
      subst (All (NotStale task now extask))
        (sym (
          keeps_jobs extask true (time_out_jobs task now (stale_jobs_of task now extask w.jobs) w)))
        (time_out_jobs-All (NotStale task now extask) (stale_jobs_of task now extask w.jobs) w
          (timed_out-NotStale extask)
          (selected (is_stale task now) (λ (j : Job). j.executed_task_id == extask.id) w.jobs))

  time_out_extask_other :
      (extask other : ExecutedTask) (w : World)
      → All (NotStale task now extask) w.jobs
      → All (NotStale task now extask) (time_out_extask task now other w).jobs
  unfolding time_out_extask
  time_out_extask_other extask other w h =
      subst (All (NotStale task now extask))
        (sym
          (keeps_jobs other true (time_out_jobs task now (stale_jobs_of task now other w.jobs) w)))
        (time_out_jobs-All (NotStale task now extask) (stale_jobs_of task now other w.jobs) w
          (timed_out-NotStale extask)
          (All-imp (NotStale task now extask)
            (λ r. IsAmong (stale_jobs_of task now other w.jobs) r ⊎ NotStale task now extask r)
            w.jobs (λ r q. inr q) h))

  abbrev Among : ExecutedTask → List ExecutedTask → Type 0
  Among e [] = ⊥
  Among e (x ∷ xs) = (x ≡ e) ⊎ Among e xs

  time_out_extasks-All :
      (extask : ExecutedTask) (extasks : List ExecutedTask) (w : World)
      → Among extask extasks ⊎ All (NotStale task now extask) w.jobs
      → All (NotStale task now extask) (time_out_extasks task now extasks w).jobs
  unfolding time_out_extasks
  time_out_extasks-All extask [] w (inr h) = h
  time_out_extasks-All extask [] w (inl h) = elim h [ ]
  time_out_extasks-All extask (x ∷ xs) w h =
      time_out_extasks-All extask xs (time_out_extask task now x w) (next h)
    where
      next :
          Among extask (x ∷ xs) ⊎ All (NotStale task now extask) w.jobs
          → Among extask xs ⊎ All (NotStale task now extask) (time_out_extask task now x w).jobs
      next (inl (inl same)) = inr (
          subst (λ e. All (NotStale task now e) (time_out_extask task now x w).jobs) same
            (time_out_extask_self x w))
      next (inl (inr later)) = inl later
      next (inr h) = inr (time_out_extask_other extask x w h)

  -- Each executed task with a stale job is met.
  abbrev IsMet : List Job → List ExecutedTask → ExecutedTask → Type 0
  IsMet jobs extasks e =
      (e.task.id == task.id) ≡ true → Among e extasks ⊎ All (NotStale task now e) jobs

  Among-append_right :
      (e : ExecutedTask) (xs ys : List ExecutedTask) → Among e ys → Among e (xs ++ ys)
  Among-append_right e [] ys h = h
  Among-append_right e (x ∷ xs) ys h = inr (Among-append_right e xs ys h)

  none_selected :
      (e : ExecutedTask) (jobs : List Job)
      → stale_jobs_of task now e jobs ≡ []
      → All (NotStale task now e) jobs
  none_selected e jobs nothing =
      All-imp (λ r. IsAmong [] r ⊎ NotStale task now e r) (NotStale task now e) jobs
        (not_among (NotStale task now e))
        (subst (λ L. All (λ r. IsAmong L r ⊎ NotStale task now e r) jobs) nothing
          (selected (is_stale task now) (λ (j : Job). j.executed_task_id == e.id) jobs))

  timed_out_extasks-IsMet :
      (jobs : List Job) (rows : List ExecutedTask)
      → All (IsMet jobs (timed_out_extasks task now jobs rows)) rows
  unfolding timed_out_extasks
  timed_out_extasks-IsMet jobs [] = tt
  timed_out_extasks-IsMet jobs (x ∷ rows) = (
    λ of_task. rw of_task (here (stale_jobs_of task now x jobs) refl),
    All-imp (IsMet jobs (timed_out_extasks task now jobs rows))
        (IsMet jobs (timed_out_extasks task now jobs (x ∷ rows))) rows later
        (timed_out_extasks-IsMet jobs rows),
  )
    where
      here :
          (js : List Job)
          → stale_jobs_of task now x jobs ≡ js
          → Among x (once_for_each x js ++ timed_out_extasks task now jobs rows)
            ⊎ All (NotStale task now x) jobs
      here [] e = inr (none_selected x jobs e)
      here (j ∷ js) e = inl (inl refl)

      later :
          (e : ExecutedTask)
          → IsMet jobs (timed_out_extasks task now jobs rows) e
          → IsMet jobs (timed_out_extasks task now jobs (x ∷ rows)) e
      later e met of_task = elim (met of_task) [
        | inl among ↦ inl (Among-append_right e _ (timed_out_extasks task now jobs rows) among)
        | inr h ↦ inr h
      ]

-- Behind the check for a task each row of the jobs, at its place, is as it was or has the status TIMEOUT
-- and the time of the check; and for each of the task's executed tasks that were there at its start,
-- each of its jobs that was stale has TIMEOUT and this time, and no job of it is stale: none runs
-- whose last update is further back than the timeout.
pub check_stale-NotStale :
    (task : Task) (w : World)
    → AtEachPlace (IsKeptOrTimedOut w.now) w.jobs (check_stale_jobs_for task w).jobs
      × All
          (λ e.
            (e.task.id == task.id) ≡ true
            → AtEachPlace (IsEnded task e w.now) w.jobs (check_stale_jobs_for task w).jobs
              × All (NotStale task w.now e) (check_stale_jobs_for task w).jobs)
          w.executed_tasks
unfolding check_stale_jobs_for
check_stale-NotStale task w =
    let met = timed_out_extasks task w.now w.jobs w.executed_tasks in
    let kept = time_out_extasks-AtEachPlace task w.now w.jobs met w (all_kept w.now w.jobs) in
    (
      kept,
      All-imp (IsMet task w.now w.jobs met) _ w.executed_tasks
          (λ e is_met of_task.
            let fresh = time_out_extasks-All task w.now e met w (is_met of_task) in
            (rows-IsEnded task e w.now w.jobs _ kept fresh, fresh))
          (timed_out_extasks-IsMet task w.now w.jobs w.executed_tasks),
    )
