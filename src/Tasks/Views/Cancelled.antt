-- ===== src/Tasks/Views/Cancelled.antt =====
-- What `cancel` leaves of an executed task and its jobs.
use advisor_backend.Common.{
  ℕ, String, Bool, true, false, not, ◌&&◌, if◌then◌else◌, none, some, List, [], ◌∷◌, ◌++◌, map,
  Result, ok, err, nat_eq, ◌==◌, ◌≡◌, refl, ap, sym, subst, ◌∙◌, arith, inl, inr, All,
}
use advisor_backend.Common.Actions.{◌>>=◌, ◌>>◌, lift, modify, query}
use advisor_backend.Json.{JsonValue}
use advisor_backend.Requests.{Try}
use advisor_backend.Tasks.Models.{
  ExecutedTaskStatus, JobStatus, ExecutedTask, Job, World, completed, completed_with_errors,
  same_task_status, same_job_status, find_task, success, timeout,
}
use advisor_backend.Tasks.Status.{job_statuses, update_executed_task_status, completed_event}
use advisor_backend.Tasks.Status.Summary.{Has, IsSummary}
use advisor_backend.Tasks.Status.Updated.{IsUpdated, update_executed_task-IsUpdated}
use advisor_backend.Tasks.Views.{
  cancel_job, cancel_jobs, run_ids, batched, send_cancels, update_status, cancel, principal_of,
}

-- The statuses behind the cancellation.
end_status : JobStatus → JobStatus
end_status JobStatus.running = JobStatus.cancelled
end_status success = success
end_status JobStatus.failure = JobStatus.failure
end_status timeout = timeout
end_status JobStatus.cancelled = JobStatus.cancelled

none_running : (ss : List JobStatus) → ¬ Has JobStatus.running (map end_status ss)
unfolding end_status
none_running [] h = h
none_running (s ∷ ss) (inr later) = none_running ss later
none_running (JobStatus.running ∷ ss) (inl same) = cc
none_running (success ∷ ss) (inl same) = cc
none_running (JobStatus.failure ∷ ss) (inl same) = cc
none_running (timeout ∷ ss) (inl same) = cc
none_running (JobStatus.cancelled ∷ ss) (inl same) = cc

one_cancelled :
    (ss : List JobStatus) → Has JobStatus.running ss → Has JobStatus.cancelled (map end_status ss)
unfolding end_status
one_cancelled [] h = elim h [ ]
one_cancelled (s ∷ ss) (inl same) = inl (ap end_status same)
one_cancelled (s ∷ ss) (inr later) = inr (one_cancelled ss later)

end_status-running :
    (s : JobStatus)
    → same_job_status JobStatus.running s ≡ true
    → end_status s ≡ JobStatus.cancelled
unfolding end_status
end_status-running JobStatus.running h = refl
end_status-running success h = cc
end_status-running JobStatus.failure h = cc
end_status-running timeout h = cc
end_status-running JobStatus.cancelled h = cc

end_status-other : (s : JobStatus) → same_job_status JobStatus.running s ≡ false → end_status s ≡ s
unfolding end_status
end_status-other JobStatus.running h = cc
end_status-other success h = refl
end_status-other JobStatus.failure h = refl
end_status-other timeout h = refl
end_status-other JobStatus.cancelled h = refl

module _ (extask : ExecutedTask) where
  job_statuses-cancel :
      (jobs : List Job)
      → job_statuses extask (map (cancel_job extask) jobs)
        ≡ map end_status (job_statuses extask jobs)
  unfolding job_statuses
  job_statuses-cancel [] = refl
  job_statuses-cancel (j ∷ js) =
      go (j.executed_task_id == extask.id) refl (same_job_status JobStatus.running j.status) refl
        (job_statuses-cancel js)
    where
      go :
          (mine : Bool)
          → (j.executed_task_id == extask.id) ≡ mine
          → (runs : Bool) → same_job_status JobStatus.running j.status ≡ runs
          → job_statuses extask (map (cancel_job extask) js)
            ≡ map end_status (job_statuses extask js)
          → job_statuses extask (map (cancel_job extask) (j ∷ js))
            ≡ map end_status (job_statuses extask (j ∷ js))
      go true e true f ih =
          rw (e, f)
            (rw e (
              ap (λ l. JobStatus.cancelled ∷ l) ih
              ∙ ap (λ s. s ∷ map end_status (job_statuses extask js))
                  (sym (end_status-running j.status f))))
      go true e false f ih =
          rw (e, f)
            (rw e (
              ap (λ l. j.status ∷ l) ih
              ∙ ap (λ s. s ∷ map end_status (job_statuses extask js))
                  (sym (end_status-other j.status f))))
      go false e runs f ih = rw e (rw e ih)

  -- A summary with a cancelled job and none that runs.
  cancelled_summary :
      (ss : List JobStatus) (status : ExecutedTaskStatus)
      → ¬ Has JobStatus.running ss
      → Has JobStatus.cancelled ss
      → IsSummary ss status
      → status ≡ ExecutedTaskStatus.cancelled
  cancelled_summary ss ExecutedTaskStatus.running stopped has h = absurd (stopped h)
  cancelled_summary ss ExecutedTaskStatus.cancelled stopped has h = refl
  cancelled_summary ss completed stopped has h = absurd (not_all ss has h)
    where
      not_all : (ss : List JobStatus) → Has JobStatus.cancelled ss → All (λ s. s ≡ success) ss → ⊥
      not_all [] has h = has
      not_all (s ∷ ss) (inl same) h = cc
      not_all (s ∷ ss) (inr later) h = not_all ss later h.1
  cancelled_summary ss completed_with_errors stopped has h = absurd (h.1 has)
  cancelled_summary ss ExecutedTaskStatus.failure stopped has h = absurd (h.1 has)

  -- An update behind the cancellation.
  updated :
      (w : World)
      → find_task extask.id w.executed_tasks ≡ some extask
      → Has JobStatus.cancelled (job_statuses extask w.jobs)
      → IsUpdated extask true w
          (update_executed_task_status extask none true false w).0
          (update_executed_task_status extask none true false w).1
  updated w row has = go (job_statuses extask w.jobs) refl has
    where
      go :
          (ss : List JobStatus)
          → job_statuses extask w.jobs ≡ ss
          → Has JobStatus.cancelled ss
          → IsUpdated extask true w
              (update_executed_task_status extask none true false w).0
              (update_executed_task_status extask none true false w).1
      go [] e h = elim h [ ]
      go (s ∷ ss) e h = update_executed_task-IsUpdated extask none true false w s ss row e

  sends_at_end :
      same_task_status extask.status ExecutedTaskStatus.running ≡ true
      → (not (same_task_status ExecutedTaskStatus.running ExecutedTaskStatus.cancelled)
          && not (same_task_status extask.status ExecutedTaskStatus.cancelled))
        ≡ true
  sends_at_end runs = ground arith

  sends_event {ℓ} :
      {A : Type ℓ} (a b : A) (s : ExecutedTaskStatus)
      → same_task_status extask.status ExecutedTaskStatus.running ≡ true
      → s ≡ ExecutedTaskStatus.cancelled
      → (if true
            && not (same_task_status ExecutedTaskStatus.running s)
            && not (same_task_status extask.status s)
          then a
          else b)
        ≡ a
  sends_event a b s runs e =
      ap
        (λ t.
          if not (same_task_status ExecutedTaskStatus.running t)
            && not (same_task_status extask.status t)
          then a
          else b)
        e
      ∙ rw (sends_at_end runs) refl

-- What a cancellation leaves.
pub record IsCancelled (extask : ExecutedTask) (w : World) (after : ExecutedTask) (w' : World)
    : Type 0 where
  pub jobs : w'.jobs ≡ map (cancel_job extask) w.jobs
  pub stopped : ¬ Has JobStatus.running (job_statuses extask w'.jobs)
  pub saved : find_task extask.id w'.executed_tasks ≡ some after
  pub status : after.status ≡ ExecutedTaskStatus.cancelled
  pub sent : w'.sent ≡ w.sent ++ completed_event after ∷ []

update_status-IsCancelled :
    (extask : ExecutedTask) (w : World)
    → find_task extask.id w.executed_tasks ≡ some extask
    → same_task_status extask.status ExecutedTaskStatus.running ≡ true
    → Has JobStatus.running (job_statuses extask w.jobs)
    → IsCancelled extask w
        (update_executed_task_status extask none true false (cancel_jobs extask w)).0
        (update_executed_task_status extask none true false (cancel_jobs extask w)).1
update_status-IsCancelled extask w row runs has =
    let cancels : World = cancel_jobs extask w in
    let statuses = job_statuses-cancel extask w.jobs in
    let one : Has JobStatus.cancelled (job_statuses extask cancels.jobs) =
      subst (Has JobStatus.cancelled) (sym statuses)
        (one_cancelled (job_statuses extask w.jobs) has) in
    let no_run : ¬ Has JobStatus.running (job_statuses extask cancels.jobs) =
      subst (λ ss. ¬ Has JobStatus.running ss) (sym statuses)
        (none_running (job_statuses extask w.jobs)) in
    let u = updated extask cancels row one in
    let status =
      cancelled_summary extask (job_statuses extask cancels.jobs)
        (update_executed_task_status extask none true false cancels).0.status no_run one
        u.summary in
    record {
      jobs = u.same_jobs;
      stopped =
          subst (λ js. ¬ Has JobStatus.running (job_statuses extask js)) (sym u.same_jobs) no_run;
      saved = u.saved;
      status = status;
      sent = u.events ∙ sends_event extask _ _ _ runs status;
    }

-- What becomes of a cancellation, by the principal of the request.
abbrev pub Cancels :
    ExecutedTask → World → Result (JsonValue × JsonValue) → Result ExecutedTask × World → Type 0
Cancels extask w (err e) r = r ≡ (err e, w)
Cancels extask w (ok who) r =
    (after : ExecutedTask) × (w' : World) × (r ≡ (ok after, w')) × IsCancelled extask w after w'

-- Where an executed task is running, as its row is, one of its jobs runs, and no request to the dispatcher
-- raises: where the request has a user name and an organisation, the cancellation returns, the running
-- jobs of the task, and no other, become cancelled, none of its jobs runs, its row is the returned object
-- with the status cancelled, and one event tells of it; where the request lacks one of them, as that of
-- a service account does, the exception of the look-up is raised, and nothing is changed.
pub cancel-IsCancelled :
    (dispatcher : (user org_id : JsonValue) → List String → ℕ → Try) (batch_size : ℕ)
    (auth : JsonValue) (extask : ExecutedTask) (w : World)
    → find_task extask.id w.executed_tasks ≡ some extask
    → same_task_status extask.status ExecutedTaskStatus.running ≡ true
    → Has JobStatus.running (job_statuses extask w.jobs)
    → ((user org_id : JsonValue)
        → send_cancels (dispatcher user org_id) (batched (run_ids extask w.jobs) batch_size)
          ≡ ok tt)
    → Cancels extask w (principal_of auth) (cancel dispatcher batch_size auth extask w)
unfolding cancel update_status
cancel-IsCancelled dispatcher batch_size auth extask w row runs has sent =
    rw runs (by_principal (principal_of auth))
  where
    by_principal :
        (who : Result (JsonValue × JsonValue))
        → Cancels extask w who (
            (do
              p ← lift who
              run_list ← query (λ w₁. ok (run_ids extask w₁.jobs))
              lift (send_cancels (dispatcher p.0 p.1) (batched run_list batch_size))
              modify (cancel_jobs extask)
              update_status extask)
              w)
    by_principal (err e) = refl
    by_principal (ok (user, org_id)) = (
      (update_executed_task_status extask none true false (cancel_jobs extask w)).0,
      (update_executed_task_status extask none true false (cancel_jobs extask w)).1,
      rw (sent user org_id) refl,
      update_status-IsCancelled extask w row runs has,
    )
