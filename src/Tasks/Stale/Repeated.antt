-- ===== src/Tasks/Stale/Repeated.antt =====
-- The event of an executed task that ends by stale jobs is sent once for each of them.
use advisor_backend.Common.{
  ℕ, ◌+◌, Bool, true, false, ◌&&◌, none, List, [], ◌∷◌, nat_eq, ◌==◌, All, ◌≡◌, refl, ◌⊎◌, inl, inr,
  any, if◌then◌else◌, Bool-cases, arith, sym, subst, ◌∙◌, length, ap, append-nil,
}
use advisor_backend.Tasks.Models.{
  JobStatus, ExecutedTaskStatus, Task, ExecutedTask, Job, World, same_job_status, same_task_status,
}
use advisor_backend.Tasks.Status.{update_executed_task_status}
use advisor_backend.Tasks.Stale.{
  is_stale, stale_jobs_of, once_for_each, timed_out_extasks, timed_out_job, time_out_job,
  time_out_jobs, time_out_extask, time_out_extasks, check_stale_jobs_for,
}
use advisor_backend.Tasks.Stale.TimedOut.{time_out_jobs-All}
use advisor_backend.Tasks.Stale.Selected.{selected, IsAmong, keeps_jobs}
use advisor_backend.Tasks.Stale.Ended.{belongs, HasEnded, no_stale, some_stale, sends, any-save_job}

module _ (extask : ExecutedTask) where
  module _ (task : Task) (now : ℕ) where
    time_out_jobs-has_jobs :
        (js : List Job) (w : World)
        → All (λ j. belongs extask j ≡ true) js
        → any (belongs extask) w.jobs ≡ true
        → any (belongs extask) (time_out_jobs task now js w).jobs ≡ true
    unfolding time_out_jobs time_out_job
    time_out_jobs-has_jobs [] w mine h = h
    time_out_jobs-has_jobs (j ∷ js) w mine h =
        time_out_jobs-has_jobs js (time_out_job task now j w) mine.1
          (any-save_job extask (timed_out_job now j) w.jobs mine.0)

    time_out_jobs-sent : (js : List Job) (w : World) → (time_out_jobs task now js w).sent ≡ w.sent
    unfolding time_out_jobs time_out_job
    time_out_jobs-sent [] w = refl
    time_out_jobs-sent (j ∷ js) w = time_out_jobs-sent js (time_out_job task now j w)

    stale-belong :
        (rows : List Job) → All (λ j. belongs extask j ≡ true) (stale_jobs_of task now extask rows)
    stale-belong [] = tt
    stale-belong (r ∷ rows) = elim (Bool-cases (belongs extask r)) [
      | inl mine ↦ rw mine (kept (is_stale task now r) mine (stale-belong rows))
      | inr other ↦ rw other (stale-belong rows)
    ]
      where
        kept :
            (b : Bool)
            → belongs extask r ≡ true
            → All (λ j. belongs extask j ≡ true) (stale_jobs_of task now extask rows)
            → All
                (λ j. belongs extask j ≡ true)
                (if b
                  then r ∷ stale_jobs_of task now extask rows
                  else stale_jobs_of task now extask rows)
        kept true mine h = (mine, h)
        kept false mine h = h

    none_belongs :
        (rows : List Job)
        → any (belongs extask) rows ≡ false
        → stale_jobs_of task now extask rows ≡ []
    none_belongs [] h = refl
    none_belongs (r ∷ rows) h = elim (Bool-cases (belongs extask r)) [
      | inl mine ↦ cc
      | inr other ↦ rw other (none_belongs rows (ground (arith, other)))
    ]

    -- Each running job of the executed task is stale.
    abbrev pub AllStale : List Job → Type 0
    AllStale jobs =
        All
          (λ j.
            (belongs extask j && same_job_status JobStatus.running j.status) ≡ true
            → is_stale task now j ≡ true)
          jobs

    not_running :
        (r : Job)
        → ((belongs extask r && same_job_status JobStatus.running r.status) ≡ true
            → is_stale task now r ≡ true)
        → (belongs extask r && is_stale task now r) ≡ false
        → (belongs extask r && same_job_status JobStatus.running r.status) ≡ false
    not_running r h k =
        elim (Bool-cases (belongs extask r && same_job_status JobStatus.running r.status)) [
          | inl runs ↦ ground (arith, runs, h runs, k)
          | inr stopped ↦ stopped
        ]

    to_end :
        (rows all_rows : List Job)
        → AllStale rows
        → All (λ r. IsAmong all_rows r ⊎ ((belongs extask r && is_stale task now r) ≡ false)) rows
        → All
            (λ r.
              IsAmong all_rows r
              ⊎ ((belongs extask r && same_job_status JobStatus.running r.status) ≡ false))
            rows
    to_end [] all_rows h k = tt
    to_end (r ∷ rows) all_rows (h, hs) (inl among, ks) = (inl among, to_end rows all_rows hs ks)
    to_end (r ∷ rows) all_rows (h, hs) (inr k, ks) =
        (inr (not_running r h k), to_end rows all_rows hs ks)

    time_out_jobs-HasEnded :
        (w : World)
        → AllStale w.jobs
        → any (belongs extask) w.jobs ≡ true
        → HasEnded extask (time_out_jobs task now (stale_jobs_of task now extask w.jobs) w).jobs
    time_out_jobs-HasEnded w stale has = record {
      none_runs =
          time_out_jobs-All task now
            (λ r. (belongs extask r && same_job_status JobStatus.running r.status) ≡ false)
            (stale_jobs_of task now extask w.jobs) w (λ j. ground arith)
            (to_end w.jobs (stale_jobs_of task now extask w.jobs) stale
              (selected (is_stale task now) (belongs extask) w.jobs));
      has_jobs =
          time_out_jobs-has_jobs (stale_jobs_of task now extask w.jobs) w (stale-belong w.jobs) has;
    }

    quiet :
        (w : World)
        → HasEnded extask w.jobs
        → time_out_extask task now extask w
          ≡ (update_executed_task_status extask none true false w).1
    unfolding time_out_extask time_out_jobs
    quiet w ended =
        ap
          (λ js.
            (update_executed_task_status extask none true false (time_out_jobs task now js w)).1)
          (no_stale extask task now w.jobs ended.none_runs)

    met_once_for_each :
        (extask.task.id == task.id) ≡ true
        → (jobs : List Job)
        → timed_out_extasks task now jobs (extask ∷ [])
          ≡ once_for_each extask (stale_jobs_of task now extask jobs)
    unfolding timed_out_extasks
    met_once_for_each of_task jobs =
        rw of_task (append-nil (once_for_each extask (stale_jobs_of task now extask jobs)))

    -- A copy of the object that is met after the jobs have ended sends extask the event again.
    again :
        same_task_status extask.status ExecutedTaskStatus.running ≡ true
        → (js : List Job) (w : World) → HasEnded extask w.jobs
        → length (time_out_extasks task now (once_for_each extask js) w).sent
          ≡ length w.sent + length js
    unfolding time_out_extasks
    again runs [] w ended = omega arith
    again runs (j ∷ js) w ended =
        ap (λ v. length (time_out_extasks task now (once_for_each extask js) v).sent)
          (quiet w ended)
        ∙ again runs js (update_executed_task_status extask none true false w).1
            (subst (HasEnded extask) (sym (keeps_jobs extask true w)) ended)
        ∙ omega (arith, sends extask runs w ended)

    first :
        same_task_status extask.status ExecutedTaskStatus.running ≡ true
        → (js : List Job) (w : World) → stale_jobs_of task now extask w.jobs ≡ js
        → AllStale w.jobs
        → length (time_out_extasks task now (once_for_each extask js) w).sent
          ≡ length w.sent + length js
    unfolding time_out_extasks time_out_extask
    first runs [] w e stale = omega arith
    first runs (j ∷ js) w e stale = go (any (belongs extask) w.jobs) refl
      where
        w' : World
        w' = time_out_jobs task now (stale_jobs_of task now extask w.jobs) w

        go :
            (has : Bool)
            → any (belongs extask) w.jobs ≡ has
            → length (time_out_extasks task now (once_for_each extask (j ∷ js)) w).sent
              ≡ length w.sent + length (j ∷ js)
        go false nothing = absurd (some_stale extask (sym e ∙ none_belongs w.jobs nothing))
        go true has =
            let ended = time_out_jobs-HasEnded w stale has in
            again runs js (update_executed_task_status extask none true false w').1
              (subst (HasEnded extask) (sym (keeps_jobs extask true w')) ended)
            ∙ omega (
              arith,
              sends extask runs w' ended,
              ap length (time_out_jobs-sent (stale_jobs_of task now extask w.jobs) w),
            )

-- Where the only executed task is one of the task, is running, and has no running job that is not
-- stale, the check sends extask as many events as it has stale jobs, not one.
pub check_stale-repeats :
    (task : Task) (extask : ExecutedTask) (w : World)
    → w.executed_tasks ≡ extask ∷ []
    → (extask.task.id == task.id) ≡ true
    → same_task_status extask.status ExecutedTaskStatus.running ≡ true
    → AllStale extask task w.now w.jobs
    → length (check_stale_jobs_for task w).sent
      ≡ length w.sent + length (stale_jobs_of task w.now extask w.jobs)
unfolding check_stale_jobs_for
check_stale-repeats task extask w only of_task runs stale =
    ap
      (λ rows.
        length (time_out_extasks task w.now (timed_out_extasks task w.now w.jobs rows) w).sent)
      only
    ∙ ap (λ extasks. length (time_out_extasks task w.now extasks w).sent)
        (met_once_for_each extask task w.now of_task w.jobs)
    ∙ first extask task w.now runs (stale_jobs_of task w.now extask w.jobs) w refl stale
