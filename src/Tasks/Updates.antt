-- ===== src/Tasks/Updates.antt =====
-- The handlers of api/advisor/tasks/management/commands/tasks_service.py for the runs of jobs.
pub mod Announced
use advisor_backend.Common.{
  ℕ, String, Bool, true, false, not, ◌&&◌, if◌then◌else◌, Option, none, some, List, [], ◌∷◌, filter,
  Exception, Result, ok, err, type_error, attribute_error, key_error, other_error, string_eq,
  nat_eq, ◌==◌,
}
use advisor_backend.Common.Actions.{Action, ◌>>=◌, ◌>>◌, pure, raise, lift, query, modify}
use advisor_backend.Common.Dict.{lookup}
use advisor_backend.Json.{
  JsonValue, Items, Fields, null, str, arr, obj, nil, cons, end, field, contains_str, subscript,
  get, truthy, option_or, find_field,
}
use advisor_backend.Requests.{Response, retry_request}
use advisor_backend.Tasks.Models.{
  JobStatus, ExecutedTask, Job, LogLine, World, Event, of_job, success, timeout, updated_status,
  sent_message, requesting_data, not_fetched, same_job_status, job_label, new_log, save_job,
  find_task, send_event_message,
}
use advisor_backend.Tasks.Status.{update_executed_task_status}
use advisor_backend.Tasks.Fetch.{fetch_playbook_dispatcher_stdout}
use advisor_backend.Tasks.Outside.{Outside}
use advisor_backend.Tasks.Stdout.{ansible, script, parse_json_from_stdout}

-- EVENT_TYPE_FOR_JOB_STATUS
abbrev pub event_type_for : JobStatus → Option String
event_type_for JobStatus.cancelled = some "job-cancelled"
event_type_for JobStatus.failure = some "job-failed"
event_type_for success = some "job-completed"
event_type_for timeout = some "job-failed"
event_type_for JobStatus.running = none

-- JobStatusChoices[name]
unfoldable pub status_by_name : String → Option JobStatus
status_by_name name =
    if name == "RUNNING"
    then some JobStatus.running
    else if name == "SUCCESS"
    then some success
    else if name == "FAILURE"
    then some JobStatus.failure
    else if name == "TIMEOUT"
    then some timeout
    else if name == "CANCELLED"
    then some JobStatus.cancelled
    else none

-- job.executed_task
abbrev pub task_of : Job → World → Result ExecutedTask
task_of job w = elim (find_task job.executed_task_id w.executed_tasks) [
  | none ↦ err other_error
  | some extask ↦ ok extask
]

abbrev pub one_job : List Job → Result (Option Job)
one_job [] = ok none
one_job (job ∷ []) = ok (some job)
one_job (job ∷ other ∷ jobs) = err other_error

abbrev pub job_event : String → ExecutedTask → Job → String → JobStatus → Event
job_event event_type extask job display_name new_status = record {
  event_type = event_type;
  org_id = extask.org_id;
  context = some (extask.name, extask.task.slug, extask.id);
  payloads = of_job job.system_id display_name (job_label new_status) ∷ [];
}

abbrev pub updated_at : Option ℕ → ℕ → ℕ
updated_at none now = now
updated_at (some t) now = t

-- job.status = new_status, with its save and its line in the log
abbrev pub with_status : JobStatus → ℕ → Job → Job
with_status new_status t job = record job { status = new_status; updated_on = t }

unfoldable pub write_status : Job → JobStatus → Option ℕ → Action World Job
write_status job new_status updated_datetime w =
    let job' = with_status new_status (updated_at updated_datetime w.now) job in
    let saved : World = record w { jobs = save_job job' w.jobs } in
    (
      ok job',
      new_log job' (same_job_status job'.status success)
          (updated_status job'.status job'.updated_on job'.run_id) saved,
    )

-- The event and the line in the log.
unfoldable pub send_job_event : Job → JobStatus → String → String → ExecutedTask → World → World
send_job_event job new_status event_type display_name extask w =
    new_log job true (sent_message job.status display_name job.system_id job.run_id)
      (send_event_message (job_event event_type extask job display_name new_status) w)

-- By the display name of the system, the type of the event and the executed task.
unfoldable pub announce_job_by :
    Option String → Option String → Result ExecutedTask → Job → JobStatus → Action World (Unit {0})
announce_job_by none event_type extask job new_status w = (ok tt, w)
announce_job_by (some display_name) none extask job new_status w = (ok tt, w)
announce_job_by (some display_name) (some event_type) (err e) job new_status w = (err e, w)
announce_job_by (some display_name) (some event_type) (ok extask) job new_status w =
    (ok tt, send_job_event job new_status event_type display_name extask w)

-- The event of a job that does not run and whose system exists.
unfoldable pub announce_job : Job → JobStatus → Action World (Unit {0})
announce_job job new_status w =
    announce_job_by (lookup job.system_id w.hosts) (event_type_for job.status) (task_of job w) job
      new_status w

unfoldable pub finish_update : Job → ExecutedTask → Action World Job
finish_update job extask w =
    (ok job, (update_executed_task_status extask (some job) true false w).1)

module _ (outside : Outside) where
  open outside use {parse_datetime, uuid_of, upper, s3, send_tracker}

  unfoldable pub set_status : Job → JobStatus → JsonValue → Action World Job
  set_status job new_status updated_on =
      if same_job_status job.status new_status
      then pure job
      else (do t ← lift (parse_datetime updated_on); write_status job new_status t)

  unfoldable pub update_job_status : Job → JobStatus → JsonValue → Action World Job
  update_job_status job new_status updated_on = do
    job' ← set_status job new_status updated_on
    announce_job job' new_status
    extask ← query (task_of job')
    finish_update job' extask

  -- Job.objects.get(run_id=run_id), with `none` where there is no such job
  unfoldable pub job_by_run_id : JsonValue → World → Result (Option Job)
  job_by_run_id run_id w = elim (uuid_of run_id) [
    | err e ↦ err e
    | ok none ↦ ok none
    | ok (some u) ↦ one_job (filter (λ (j : Job). j.run_id == u) w.jobs)
  ]

  -- An output that is no text is not modelled: it is taken to raise.
  unfoldable pub parse_text : Job → JsonValue → Action World (Unit {0})
  parse_text job (str stdout) = do job' ← parse_json_from_stdout outside job stdout ansible; pure tt
  parse_text job v = raise type_error

  abbrev pub parse_if_any : Job → Option JsonValue → Action World (Unit {0})
  parse_if_any job none = pure tt
  parse_if_any job (some v) = if truthy v then parse_text job v else pure tt

  unfoldable pub after_update : Job → JobStatus → Action World (Unit {0})
  after_update job new_status =
      if same_job_status new_status JobStatus.running
      then pure tt
      else (do stdout ← fetch_playbook_dispatcher_stdout outside job; parse_if_any job stdout)

  -- status_name.upper() of a text
  abbrev pub upper_name : JsonValue → Result String
  upper_name (str s) = ok (upper s)
  upper_name v = err attribute_error

  abbrev pub status_digit : JobStatus → String
  status_digit JobStatus.running = "1"
  status_digit success = "2"
  status_digit JobStatus.failure = "3"
  status_digit timeout = "4"
  status_digit JobStatus.cancelled = "5"

  -- For a name that is not known the code looks up the number of the job's status among the names.
  unfoldable pub new_status_of : Job → String → Result JobStatus
  new_status_of job status_name = elim (status_by_name status_name) [
    | some s ↦ ok s
    | none ↦ err (key_error (status_digit job.status))
  ]

  unfoldable pub update_run : Job → JsonValue → JsonValue → Action World (Unit {0})
  update_run job payload updated_on = do
    status ← lift (subscript payload "status")
    status_name ← lift (upper_name status)
    new_status ← lift (new_status_of job status_name)
    job' ← update_job_status job new_status updated_on
    after_update job' new_status

  abbrev pub update_if_found : Option Job → JsonValue → JsonValue → Action World (Unit {0})
  update_if_found none payload updated_on = do account ← lift (get payload "account"); pure tt
  update_if_found (some job) payload updated_on = update_run job payload updated_on

  unfoldable pub handle_run : JsonValue → Action World (Unit {0})
  handle_run payload = do
    run_id ← lift (subscript payload "id")
    updated_on ← lift (subscript payload "updated_at")
    job ← query (job_by_run_id run_id)
    update_if_found job payload updated_on

  -- The keys of the payload are all looked for before any is missed.
  unfoldable pub handle_ansible_job_updates : JsonValue → Action World (Unit {0})
  handle_ansible_job_updates message = do
    has_payload ← lift (contains_str "payload" message)
    if has_payload
        then (do
          payload ← lift (subscript message "payload")
          has_id ← lift (contains_str "id" payload)
          has_status ← lift (contains_str "status" payload)
          if has_id && has_status then handle_run payload else pure tt)
        else pure tt

  -- The end of `handle_script_job_updates`: the output is parsed, and the executed task follows.
  unfoldable pub parse_upload : JsonValue → Job → Action World (Unit {0})
  parse_upload (str stdout) job = do
    job' ← parse_json_from_stdout outside job stdout script
    job'' ← update_job_status job' job'.status null
    pure tt
  parse_upload v job = raise type_error

  abbrev pub parse_if_found : JsonValue → Option Job → Action World (Unit {0})
  parse_if_found stdout none = pure tt
  parse_if_found stdout (some job) = parse_upload stdout job

  -- The message to the payload tracker.
  unfoldable pub tracker_message : JsonValue → JsonValue → Result JsonValue
  tracker_message message updated_on = elim message [
    | obj fs ↦ ok (
        obj (
          field "status" (str "received") (
            field "service" (str "tasks") (
              field "source" (str "rhc-worker-script") (
                field "account" (value_of "account" fs) (
                  field "org_id" (value_of "org_id" fs) (
                    field "inventory_id" (value_of "id" fs) (
                      field "request_id" (value_of "request_id" fs) (
                        field "status_msg"
                          (str "Tasks backend starting to process rhc-worker-script payload")
                          (field "date" updated_on end))))))))))
    | _ ↦ err attribute_error
  ]
    where
      value_of : String → Fields → JsonValue
      value_of k fs = option_or (find_field k fs) null

  unfoldable pub handle_script_job_updates : JsonValue → Action World (Unit {0})
  handle_script_job_updates message = do
    request_id ← lift (get message "request_id")
    updated_on ← lift (subscript message "timestamp")
    tracked ← lift (tracker_message message updated_on)
    lift (send_tracker tracked)
    upload_url ← lift (subscript message "url")
    request ← lift (retry_request false (s3 upload_url) 3).0
    file_contents ← lift request.json
    run_id ← lift (subscript file_contents "correlation_id")
    stdout ← lift (subscript file_contents "stdout")
    job ← query (job_by_run_id run_id)
    parse_if_found stdout job
