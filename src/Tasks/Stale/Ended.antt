-- ===== src/Tasks/Stale/Ended.antt =====
-- An executed task whose jobs have ended.
use advisor_backend.Common.{
  ℕ, suc, Bool, true, false, ◌&&◌, none, List, [], ◌∷◌, ◌++◌, nat_eq, ◌==◌, All, ◌≡◌, refl, inl,
  inr, any, if◌then◌else◌, Bool-cases, arith, subst, ◌∙◌, length, length-append,
}
use advisor_backend.Tasks.Models.{
  JobStatus, ExecutedTaskStatus, Task, ExecutedTask, Job, World, same_job_status, same_task_status,
  save_job, update_job,
}
use advisor_backend.Tasks.Status.{
  job_statuses, has_status, update_executed_task_status, update_for, update_by_statuses,
  finish_task, finished_status,
}
use advisor_backend.Tasks.Status.Updated.{finished-ne-running, same_task-eq}
use advisor_backend.Tasks.Stale.{stale_jobs_of}

module _ (extask : ExecutedTask) where
  abbrev pub belongs : Job → Bool
  belongs job = job.executed_task_id == extask.id

  -- No job of the executed task runs, and there is one.
  pub record HasEnded (jobs : List Job) : Type 0 where
    pub none_runs :
        All (λ j. (belongs j && same_job_status JobStatus.running j.status) ≡ false) jobs
    pub has_jobs : any belongs jobs ≡ true

  pub no_running :
      (jobs : List Job)
      → All (λ j. (belongs j && same_job_status JobStatus.running j.status) ≡ false) jobs
      → has_status JobStatus.running (job_statuses extask jobs) ≡ false
  unfolding job_statuses
  no_running [] h = refl
  no_running (j ∷ js) h = elim (Bool-cases (belongs j)) [
    | inl mine ↦ rw mine (ground (arith, mine, h.0, no_running js h.1))
    | inr other ↦ rw other (no_running js h.1)
  ]

  pub no_stale :
      (task : Task) (now : ℕ) (jobs : List Job)
      → All (λ j. (belongs j && same_job_status JobStatus.running j.status) ≡ false) jobs
      → stale_jobs_of task now extask jobs ≡ []
  no_stale task now [] h = refl
  no_stale task now (j ∷ js) h = elim (Bool-cases (belongs j)) [
    | inl mine ↦ rw mine (ground (arith, mine, h.0, no_stale task now js h.1))
    | inr other ↦ rw other (no_stale task now js h.1)
  ]

  pub no_statuses : (jobs : List Job) → job_statuses extask jobs ≡ [] → any belongs jobs ≡ false
  unfolding job_statuses
  no_statuses [] h = refl
  no_statuses (j ∷ js) h = ground (arith, no_statuses js)

  pub some_stale : {j : Job} {js : List Job} → ◌≡◌ {A = List Job} (j ∷ js) [] → ⊥
  some_stale h = cc

  pub true_ne_false : {b : Bool} → b ≡ true → b ≡ false → ⊥
  true_ne_false h k = cc

  pub sends :
      (runs : same_task_status extask.status ExecutedTaskStatus.running ≡ true) (w : World)
      → HasEnded w.jobs
      → length (update_executed_task_status extask none true false w).1.sent ≡ suc (length w.sent)
  unfolding update_executed_task_status update_for update_by_statuses finish_task
  sends runs w ended = go (job_statuses extask w.jobs) refl (no_running w.jobs ended.none_runs)
    where
      changes : (ss : List JobStatus) → same_task_status extask.status (finished_status ss) ≡ false
      changes ss =
          subst (λ s. same_task_status s (finished_status ss) ≡ false)
            (same_task-eq extask.status ExecutedTaskStatus.running runs) (finished-ne-running ss)

      go :
          (ss : List JobStatus)
          → job_statuses extask w.jobs ≡ ss
          → has_status JobStatus.running ss ≡ false
          → length (update_for extask none true false ss w).1.sent ≡ suc (length w.sent)
      go [] e h = absurd (true_ne_false ended.has_jobs (no_statuses w.jobs e))
      go (s ∷ ss) e h = rw h (rw (changes (s ∷ ss)) (length-append w.sent _ ∙ omega arith))

  pub any-save_job :
      (j : Job) (rows : List Job) → belongs j ≡ true → any belongs (save_job j rows) ≡ true
  unfolding save_job
  any-save_job j rows mine = go (any (λ (r : Job). r.id == j.id) rows) refl
    where
      updated :
          (rs : List Job)
          → any (λ (r : Job). r.id == j.id) rs ≡ true
          → any belongs (update_job j rs) ≡ true
      updated [] e = cc
      updated (r ∷ rs) e = elim (Bool-cases (r.id == j.id)) [
        | inl same ↦ rw same (rw mine refl)
        | inr other ↦ ground (arith, updated rs, other)
      ]

      added : (rs : List Job) → any belongs (rs ++ j ∷ []) ≡ true
      added [] = rw mine refl
      added (r ∷ rs) = ground (arith, added rs)

      go :
          (b : Bool)
          → any (λ (r : Job). r.id == j.id) rows ≡ b
          → any belongs (if b then update_job j rows else rows ++ j ∷ []) ≡ true
      go true e = updated rows e
      go false e = added rows
