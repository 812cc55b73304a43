-- ===== src/Tasks/Status/Updated.antt =====
-- A call of `update_executed_task_status` writes the summary of the jobs, and sends an event where the
-- task has come to an end.
use advisor_backend.Common.{
  ℕ, Bool, true, false, not, ◌&&◌, Option, none, some, List, [], ◌∷◌, ◌++◌, if◌then◌else◌, nat_eq,
  ◌==◌, any, ◌≡◌, refl, inl, inr, arith, Bool-cases, nat_beq_iff, beq_self, sym, ap, ◌∙◌, subst,
}
use advisor_backend.Common.Dict.{is_some}
use advisor_backend.Tasks.Models.{
  send_event_message, ExecutedTaskStatus, JobStatus, ExecutedTask, Job, World, same_task_status,
  find_task, update_task, save_task, completed, completed_with_errors, task_value,
}
use advisor_backend.Tasks.Status.{
  job_statuses, has_status, finished_status, completed_event, finish_task, keep_running,
  update_by_statuses, update_executed_task_status, log_last_job, update_for,
}
use advisor_backend.Tasks.Status.Summary.{Has, IsSummary, finished_status-IsSummary, has_status-Has}

-- The row of an object that is saved.
find-update_task :
    (t : ExecutedTask) (rows : List ExecutedTask)
    → is_some (find_task t.id rows) ≡ true
    → find_task t.id (update_task t rows) ≡ some t
find-update_task t [] h = cc
find-update_task t (r ∷ rows) h = elim (Bool-cases (r.id == t.id)) [
  | inl same ↦ rw same (rw (beq_self t.id) refl)
  | inr other ↦ rw other (rw other (find-update_task t rows (ground (arith, other))))
]

find-any :
    (i : ℕ) (rows : List ExecutedTask)
    → is_some (find_task i rows) ≡ true
    → any (λ (r : ExecutedTask). r.id == i) rows ≡ true
find-any i [] h = cc
find-any i (r ∷ rows) h = elim (Bool-cases (r.id == i)) [
  | inl same ↦ rw same
  | inr other ↦ rw other (find-any i rows (ground (arith, other)))
]

-- The row of an object that is saved over a row.
pub find-save_task :
    (t : ExecutedTask) (rows : List ExecutedTask)
    → is_some (find_task t.id rows) ≡ true
    → find_task t.id (save_task t rows) ≡ some t
unfolding save_task
find-save_task t rows h = rw (find-any t.id rows h) (find-update_task t rows h)

-- What a call has done: `after` is the object behind it.
pub record IsUpdated (extask : ExecutedTask) (send_message : Bool) (w : World)
    (after : ExecutedTask) (w' : World) : Type 0 where
  pub saved : find_task extask.id w'.executed_tasks ≡ some after
  pub summary : IsSummary (job_statuses extask w.jobs) after.status
  pub same_jobs : w'.jobs ≡ w.jobs
  pub events : w'.sent ≡ (
      if send_message
        && not (same_task_status ExecutedTaskStatus.running after.status)
        && not (same_task_status extask.status after.status)
      then w.sent ++ completed_event after ∷ []
      else w.sent)

pub finished-ne-running :
    (ss : List JobStatus) → same_task_status ExecutedTaskStatus.running (finished_status ss) ≡ false
unfolding finished_status
finished-ne-running ss = ground arith

task_of_value : ℕ → ExecutedTaskStatus
task_of_value n =
    if n == 1
    then ExecutedTaskStatus.running
    else if n == 2
    then completed
    else if n == 3
    then completed_with_errors
    else if n == 4
    then ExecutedTaskStatus.failure
    else ExecutedTaskStatus.cancelled

task_of_value-task_value : (s : ExecutedTaskStatus) → task_of_value (task_value s) ≡ s
unfolding task_of_value
task_of_value-task_value ExecutedTaskStatus.running = refl
task_of_value-task_value completed = refl
task_of_value-task_value completed_with_errors = refl
task_of_value-task_value ExecutedTaskStatus.failure = refl
task_of_value-task_value ExecutedTaskStatus.cancelled = refl

pub same_task-eq : (a b : ExecutedTaskStatus) → same_task_status a b ≡ true → b ≡ a
same_task-eq a b same =
    sym (task_of_value-task_value b)
    ∙ ap task_of_value (sym ((nat_beq_iff (task_value a) (task_value b)).0 same))
    ∙ task_of_value-task_value a

if_and_not {ℓ} : {A : Type ℓ} (a b : Bool) (x y : A) → (if a && b && not true then x else y) ≡ y
if_and_not a b x y = ground arith

if_not_and {ℓ} : {A : Type ℓ} (a b : Bool) (x y : A) → (if a && not true && b then x else y) ≡ y
if_not_and a b x y = ground arith

found_is_some {ℓ} : {A : Type ℓ} {o : Option A} {a : A} → o ≡ some a → is_some o ≡ true
found_is_some e = ap is_some e

module _ (extask : ExecutedTask) (send_message : Bool) (w : World)
    (row : find_task extask.id w.executed_tasks ≡ some extask) where
  abbrev Updates : ExecutedTask × World → Type 0
  Updates (after, w') = IsUpdated extask send_message w after w'

  stays : IsSummary (job_statuses extask w.jobs) extask.status → Updates (extask, w)
  stays summary = record {
    saved = row;
    summary = summary;
    same_jobs = refl;
    events = sym (
        rw (beq_self (task_value extask.status)) (
          if_and_not send_message (not (same_task_status ExecutedTaskStatus.running extask.status))
            _ _));
  }

  keep_running-IsUpdated :
      Has JobStatus.running (job_statuses extask w.jobs) → Updates (keep_running extask w)
  unfolding keep_running
  keep_running-IsUpdated has = go (same_task_status extask.status ExecutedTaskStatus.running) refl
    where
      after : ExecutedTask
      after = record extask { status = ExecutedTaskStatus.running }

      go :
          (same : Bool)
          → same_task_status extask.status ExecutedTaskStatus.running ≡ same
          → Updates (
              if same
              then (extask, w)
              else (after, record w { executed_tasks = save_task after w.executed_tasks }))
      go true e = stays (
          subst (IsSummary (job_statuses extask w.jobs))
            (same_task-eq extask.status ExecutedTaskStatus.running e) has)
      go false e = record {
        saved = find-save_task after w.executed_tasks (found_is_some row);
        summary = has;
        same_jobs = refl;
        events = sym (if_not_and send_message _ _ _);
      }

  finish_task-IsUpdated :
      (new_status : ExecutedTaskStatus)
      → same_task_status ExecutedTaskStatus.running new_status ≡ false
      → IsSummary (job_statuses extask w.jobs) new_status
      → Updates (finish_task extask new_status send_message w)
  unfolding finish_task
  finish_task-IsUpdated new_status stopped summary =
      go (same_task_status extask.status new_status) refl send_message refl
    where
      after : ExecutedTask
      after = record extask { status = new_status; end_time = some w.now }

      saved : World
      saved = record w { executed_tasks = save_task after w.executed_tasks }

      go :
          (same : Bool)
          → same_task_status extask.status new_status ≡ same
          → (send : Bool) → send_message ≡ send
          → Updates (
              if same then (extask, w) else (
                after,
                if send then send_event_message (completed_event after) saved else saved,
              ))
      go true e send sends = stays (
          subst (IsSummary (job_statuses extask w.jobs)) (same_task-eq extask.status new_status e)
            summary)
      go false e true sends = record {
        saved = find-save_task after w.executed_tasks (found_is_some row);
        summary = summary;
        same_jobs = refl;
        events = sym (rw (sends, stopped, e) refl);
      }
      go false e false sends = record {
        saved = find-save_task after w.executed_tasks (found_is_some row);
        summary = summary;
        same_jobs = refl;
        events = sym (rw sends refl);
      }

-- The line in the log of the last job changes nothing of this.
logged-IsUpdated :
    (extask : ExecutedTask) (job : Option Job) (send_message : Bool) (w : World)
    (new_status : ExecutedTaskStatus)
    → find_task extask.id w.executed_tasks ≡ some extask
    → same_task_status ExecutedTaskStatus.running new_status ≡ false
    → IsSummary (job_statuses extask w.jobs) new_status
    → IsUpdated extask send_message w
        (finish_task extask new_status send_message (log_last_job extask job w)).0
        (finish_task extask new_status send_message (log_last_job extask job w)).1
logged-IsUpdated extask none send_message w new_status row stopped summary =
    finish_task-IsUpdated extask send_message w row new_status stopped summary
logged-IsUpdated extask (some job) send_message w new_status row stopped summary =
    let u =
      finish_task-IsUpdated extask send_message (log_last_job extask (some job) w) row new_status
        stopped summary in
    record { saved = u.saved; summary = u.summary; same_jobs = u.same_jobs; events = u.events }

update_by_statuses-IsUpdated :
    (extask : ExecutedTask) (job : Option Job) (send_message : Bool) (w : World)
    → find_task extask.id w.executed_tasks ≡ some extask
    → IsUpdated extask send_message w
        (update_by_statuses extask job send_message (job_statuses extask w.jobs) w).0
        (update_by_statuses extask job send_message (job_statuses extask w.jobs) w).1
unfolding update_by_statuses
update_by_statuses-IsUpdated extask job send_message w row =
    go (has_status JobStatus.running ss) refl
  where
    ss : List JobStatus
    ss = job_statuses extask w.jobs

    Updates' : ExecutedTask × World → Type 0
    Updates' (after, w') = IsUpdated extask send_message w after w'

    go :
        (runs : Bool)
        → has_status JobStatus.running ss ≡ runs
        → Updates' (
            if runs
            then keep_running extask w
            else finish_task extask (finished_status ss) send_message (log_last_job extask job w))
    go true e =
        keep_running-IsUpdated extask send_message w row (has_status-Has JobStatus.running ss e)
    go false e =
        logged-IsUpdated extask job send_message w (finished_status ss) row (finished-ne-running ss)
          (finished_status-IsSummary ss e)

-- For an object that is as its row and has jobs, the update leaves a row with the object's new status,
-- which is the summary of the jobs: running if one runs; else cancelled if one is; completed if all have
-- succeeded; with errors if one has succeeded and one has failed or timed out; and else failed. The
-- jobs stay as they are, and one event is sent exactly where it is asked for and the status is
-- another and not running.
pub update_executed_task-IsUpdated :
    (extask : ExecutedTask) (job : Option Job) (send_message delete_empty : Bool) (w : World)
    (s : JobStatus) (ss : List JobStatus)
    → find_task extask.id w.executed_tasks ≡ some extask
    → job_statuses extask w.jobs ≡ s ∷ ss
    → IsUpdated extask send_message w
        (update_executed_task_status extask job send_message delete_empty w).0
        (update_executed_task_status extask job send_message delete_empty w).1
unfolding update_executed_task_status update_for
update_executed_task-IsUpdated extask job send_message delete_empty w s ss row jobs =
    go (job_statuses extask w.jobs) jobs
      (update_by_statuses-IsUpdated extask job send_message w row)
  where
    go :
        (statuses : List JobStatus)
        → statuses ≡ s ∷ ss
        → IsUpdated extask send_message w
            (update_by_statuses extask job send_message statuses w).0
            (update_by_statuses extask job send_message statuses w).1
        → IsUpdated extask send_message w
            (update_for extask job send_message delete_empty statuses w).0
            (update_for extask job send_message delete_empty statuses w).1
    go [] e u = cc
    go (x ∷ xs) e u = u
