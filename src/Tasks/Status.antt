-- ===== src/Tasks/Status.antt =====
-- `update_executed_task_status` of api/advisor/tasks/management/commands/tasks_service.py.
pub mod Summary
pub mod Updated
use advisor_backend.Common.{
  ℕ, Bool, true, false, not, ◌&&◌, Option, none, some, List, [], ◌∷◌, map, filter, if◌then◌else◌,
  nat_eq, ◌==◌, any, all,
}
use advisor_backend.Tasks.Models.{
  ExecutedTaskStatus, JobStatus, ExecutedTask, Job, World, Event, of_task, no_more_jobs,
  same_task_status, same_job_status, task_label, save_task, new_log, send_event_message, completed,
  completed_with_errors, success,
}

abbrev pub jobs_of : ExecutedTask → List Job → List Job
jobs_of extask jobs = filter (λ (j : Job). j.executed_task_id == extask.id) jobs

unfoldable pub job_statuses : ExecutedTask → List Job → List JobStatus
job_statuses extask jobs = map (λ (j : Job). j.status) (jobs_of extask jobs)

-- s in statuses
abbrev pub has_status : JobStatus → List JobStatus → Bool
has_status s statuses = any (same_job_status s) statuses

-- The status of an executed task without running jobs.
unfoldable pub finished_status : List JobStatus → ExecutedTaskStatus
finished_status statuses =
    if has_status JobStatus.cancelled statuses
    then ExecutedTaskStatus.cancelled
    else if has_status success statuses && all (same_job_status success) statuses
    then completed
    else if has_status success statuses
    then completed_with_errors
    else ExecutedTaskStatus.failure

abbrev pub completed_event : ExecutedTask → Event
completed_event extask = record {
  event_type = "executed-task-completed";
  org_id = extask.org_id;
  context = none;
  payloads = of_task extask.name extask.task.slug extask.id (task_label extask.status) ∷ [];
}

-- extask.delete(): there are no jobs that go with it
abbrev pub delete_task : ExecutedTask → World → World
delete_task extask w = record w {
  executed_tasks = filter (λ (t : ExecutedTask). not (t.id == extask.id)) w.executed_tasks;
}

-- The object after the call, and the world.
unfoldable pub finish_task : ExecutedTask → ExecutedTaskStatus → Bool → World → ExecutedTask × World
finish_task extask new_status send_message w =
    if same_task_status extask.status new_status
    then (extask, w)
    else let extask' : ExecutedTask = record extask {
      status = new_status;
      end_time = some w.now;
    } in
      let saved : World = record w { executed_tasks = save_task extask' w.executed_tasks } in
      (extask', if send_message then send_event_message (completed_event extask') saved else saved)

unfoldable pub keep_running : ExecutedTask → World → ExecutedTask × World
keep_running extask w =
    if same_task_status extask.status ExecutedTaskStatus.running
    then (extask, w)
    else let extask' : ExecutedTask = record extask { status = ExecutedTaskStatus.running } in
      (extask', record w { executed_tasks = save_task extask' w.executed_tasks })

abbrev pub log_last_job : ExecutedTask → Option Job → World → World
log_last_job extask none w = w
log_last_job extask (some job) w = new_log job true (no_more_jobs extask.name extask.id) w

-- The status by the statuses of the jobs, of which there is one at least.
unfoldable pub update_by_statuses :
    ExecutedTask → Option Job → Bool → List JobStatus → World → ExecutedTask × World
update_by_statuses extask job send_message statuses w =
    if has_status JobStatus.running statuses
    then keep_running extask w
    else finish_task extask (finished_status statuses) send_message (log_last_job extask job w)

abbrev pub delete_if : Bool → ExecutedTask → World → ExecutedTask × World
delete_if delete_empty extask w = (extask, if delete_empty then delete_task extask w else w)

-- The two cases of whether there are jobs.
unfoldable pub update_for :
    ExecutedTask
    → Option Job
    → (send_message delete_empty : Bool) → List JobStatus
    → World
    → ExecutedTask × World
update_for extask job send_message delete_empty [] w = delete_if delete_empty extask w
update_for extask job send_message delete_empty (s ∷ ss) w =
    update_by_statuses extask job send_message (s ∷ ss) w

unfoldable pub update_executed_task_status :
    (extask : ExecutedTask)
    → (job : Option Job) → (send_message delete_empty : Bool) → World
    → ExecutedTask × World
update_executed_task_status extask job send_message delete_empty w =
    update_for extask job send_message delete_empty (job_statuses extask w.jobs) w
