-- ===== src/Tasks/Stale.antt =====
-- `check_stale_jobs_for` and the command of
-- api/advisor/tasks/management/commands/stale_job_timeout.py.
pub mod Selected
pub mod Places
pub mod TimedOut
pub mod Ended
pub mod Repeated
use advisor_backend.Common.{
  ℕ, ◌+◌, Bool, true, false, ◌&&◌, none, List, [], ◌∷◌, ◌++◌, filter, ltb, nat_eq, ◌==◌,
  if◌then◌else◌,
}
use advisor_backend.Tasks.Models.{
  JobStatus, Task, ExecutedTask, Job, World, timeout, timed_out, same_job_status, new_log, save_job,
}
use advisor_backend.Tasks.Status.{jobs_of, update_executed_task_status}

-- status=RUNNING, updated_on__lt=now - timeout
abbrev pub is_stale : Task → ℕ → Job → Bool
is_stale task now job =
    same_job_status JobStatus.running job.status && ltb (job.updated_on + task.timeout) now

abbrev pub stale_jobs_of : Task → ℕ → ExecutedTask → List Job → List Job
stale_jobs_of task now extask jobs = filter (is_stale task now) (jobs_of extask jobs)

-- The object of the executed task once for each of the jobs: the query joins them.
abbrev pub once_for_each : ExecutedTask → List Job → List ExecutedTask
once_for_each extask [] = []
once_for_each extask (j ∷ js) = extask ∷ once_for_each extask js

unfoldable pub timed_out_extasks : Task → ℕ → List Job → List ExecutedTask → List ExecutedTask
timed_out_extasks task now jobs [] = []
timed_out_extasks task now jobs (extask ∷ rows) =
    (if extask.task.id == task.id
      then once_for_each extask (stale_jobs_of task now extask jobs)
      else [])
    ++ timed_out_extasks task now jobs rows

abbrev pub timed_out_job : ℕ → Job → Job
timed_out_job now job = record job { status = timeout; updated_on = now }

unfoldable pub time_out_job : Task → ℕ → Job → World → World
time_out_job task now job w =
    let logged = new_log job false (timed_out task.timeout job.run_id) w in
    record logged { jobs = save_job (timed_out_job now job) logged.jobs }

unfoldable pub time_out_jobs : Task → ℕ → List Job → World → World
time_out_jobs task now [] w = w
time_out_jobs task now (job ∷ jobs) w = time_out_jobs task now jobs (time_out_job task now job w)

unfoldable pub time_out_extask : Task → ℕ → ExecutedTask → World → World
time_out_extask task now extask w =
    (update_executed_task_status extask none true false
      (time_out_jobs task now (stale_jobs_of task now extask w.jobs) w)).1

unfoldable pub time_out_extasks : Task → ℕ → List ExecutedTask → World → World
time_out_extasks task now [] w = w
time_out_extasks task now (extask ∷ extasks) w =
    time_out_extasks task now extasks (time_out_extask task now extask w)

unfoldable pub check_stale_jobs_for : Task → World → World
check_stale_jobs_for task w =
    time_out_extasks task w.now (timed_out_extasks task w.now w.jobs w.executed_tasks) w

-- The command, over the table of the tasks.
unfoldable pub check_stale_jobs : List Task → World → World
check_stale_jobs [] w = w
check_stale_jobs (task ∷ tasks) w =
    check_stale_jobs tasks (if task.active then check_stale_jobs_for task w else w)
