-- ===== src/Tasks/Examples.antt =====
-- Tests of the tasks, and the theorems at concrete rows.
use advisor_backend.Common.{
  ℕ, ◌+◌, String, true, false, if◌then◌else◌, none, some, List, [], ◌∷◌, map, length, ok, err,
  json_error, key_error, string_eq, nat_eq, ◌==◌, ◌≡◌, refl, All, inl,
}
use advisor_backend.Json.{JsonValue, str, arr, obj, nil, cons, end, field, num, pos}
use advisor_backend.Requests.{Response, Try, answers, after_try, retry_loop, retry_request}
use advisor_backend.Requests.Tries.{EndsAt, retry_request-EndsAt}
use advisor_backend.Tasks.Models.{
  ExecutedTaskStatus, completed, JobStatus, Task, ExecutedTask, Job, World, success,
  requesting_data, new_log, save_job, save_task,
}
use advisor_backend.Tasks.Status.{
  job_statuses, update_for, update_by_statuses, finish_task, finished_status,
  update_executed_task_status, keep_running,
}
use advisor_backend.Tasks.Status.Updated.{IsUpdated, update_executed_task-IsUpdated}
use advisor_backend.Tasks.Stale.{
  timed_out_extasks, time_out_job, time_out_jobs, time_out_extask, time_out_extasks,
  check_stale_jobs_for,
}
use advisor_backend.Tasks.Stale.Selected.{NotStale}
use advisor_backend.Tasks.Stale.Places.{AtEachPlace, IsKeptOrTimedOut, IsEnded}
use advisor_backend.Tasks.Stale.TimedOut.{check_stale-NotStale}
use advisor_backend.Tasks.Stale.Repeated.{check_stale-repeats}
use advisor_backend.Tasks.Outside.{Outside}
use advisor_backend.Tasks.Stdout.{
  ansible, script, found, find_place, slice_text, recap_follows, is_recap, find_end, stdout_section,
  fail_with, get_results, parse_json_from_stdout,
}
use advisor_backend.Tasks.Stdout.Outcome.{IsParsed, parse_json-IsParsed}
use advisor_backend.Tasks.Fetch.{fetch_playbook_dispatcher_stdout, read_response, stdout_of}
use advisor_backend.Tasks.Updates.{
  update_run, update_job_status, new_status_of, status_by_name, set_status, write_status,
  announce_job, announce_job_by, send_job_event, finish_update, after_update, parse_text,
}
use advisor_backend.Common.Dict.{lookup}
use advisor_backend.Tasks.Updates.Announced.{IsAnnouncedAt, update_job-IsAnnounced}
use advisor_backend.Tasks.Views.{cancel, principal_of, send_cancels, fill_batches, batched}
use advisor_backend.Tasks.Views.Cancelled.{IsCancelled, cancel-IsCancelled}

-- A server that fails once and answers then.
abbrev failed_response : Response
failed_response = record { status_code = 503; text = ""; is_text = true; json = err json_error }

abbrev dispatched_output : JsonValue
dispatched_output =
    obj (field "data" (arr (cons (obj (field "stdout" (str "no results") end)) nil)) end)

abbrev good_response : Response
good_response = record { status_code = 200; text = ""; is_text = true; json = ok dispatched_output }

abbrev fails_once : ℕ → Try
fails_once n = if n == 1 then answers failed_response else answers good_response

retried : retry_request false fails_once 3 ≡ (ok good_response, 2)
unfolding retry_request retry_loop after_try
retried = refl

retry_request-EndsAt_example :
    EndsAt false fails_once 3
      (retry_request false fails_once 3).0
      (retry_request false fails_once 3).1
retry_request-EndsAt_example = retry_request-EndsAt false fails_once 3

abbrev log4shell : Task
log4shell = record { id = 1; slug = "log4shell"; timeout = 60; active = true }

abbrev sample_extask : ExecutedTask
sample_extask = record {
  id = 4;
  name = "Check";
  task = log4shell;
  org_id = "9876543";
  initiated_by = "tester";
  is_org_admin = true;
  start_time = 10;
  end_time = none;
  status = ExecutedTaskStatus.running;
  token = "t";
}

abbrev sample_job : ℕ → JobStatus → ℕ → Job
sample_job id status updated_on = record {
  id = id;
  executed_task_id = 4;
  system_id = "host";
  status = status;
  stdout = "";
  results = obj end;
  updated_on = updated_on;
  run_id = "run";
  rhc_client_id = none;
}

abbrev world_of : List Job → World
world_of jobs = record {
  executed_tasks = sample_extask ∷ [];
  jobs = jobs;
  logs = [];
  hosts = ("host", "host.example.com") ∷ [];
  sent = [];
  next_id = 9;
  now = 100;
}

-- Two jobs that ran out of time and one that has ended.
abbrev stale_world : World
stale_world = world_of (
    sample_job 1 JobStatus.running 20
    ∷ sample_job 2 JobStatus.running 30
    ∷ sample_job 3 success 90
    ∷ [])

-- Two events for one executed task.
sent_twice : length (check_stale_jobs_for log4shell stale_world).sent ≡ 2
unfolding check_stale_jobs_for timed_out_extasks time_out_extasks time_out_extask time_out_jobs
    time_out_job update_executed_task_status update_for update_by_statuses finish_task
    finished_status job_statuses save_job save_task
sent_twice = refl

check_stale-repeats_example : length (check_stale_jobs_for log4shell stale_world).sent ≡ 0 + 2
check_stale-repeats_example =
    check_stale-repeats log4shell sample_extask stale_world refl refl refl
      (λ h. refl, (λ h. refl, (λ h. h, tt)))

check_stale-NotStale_example :
    AtEachPlace
      (IsKeptOrTimedOut 100)
      stale_world.jobs
      (check_stale_jobs_for log4shell stale_world).jobs
    × All
        (λ e.
          (e.task.id == 1) ≡ true
          → AtEachPlace
              (IsEnded log4shell e 100)
              stale_world.jobs
              (check_stale_jobs_for log4shell stale_world).jobs
            × All (NotStale log4shell 100 e) (check_stale_jobs_for log4shell stale_world).jobs)
        (sample_extask ∷ [])
check_stale-NotStale_example = check_stale-NotStale log4shell stale_world

abbrev ended_world : World
ended_world = world_of (sample_job 1 success 20 ∷ sample_job 2 JobStatus.failure 30 ∷ [])

update_executed_task-IsUpdated_example :
    IsUpdated sample_extask true ended_world
      (update_executed_task_status sample_extask none true false ended_world).0
      (update_executed_task_status sample_extask none true false ended_world).1
unfolding job_statuses
update_executed_task-IsUpdated_example =
    update_executed_task-IsUpdated sample_extask none true false ended_world success
      (JobStatus.failure ∷ []) refl refl

-- A JSON reader that knows the empty object and `0` only.
abbrev sample_outside : Outside
sample_outside = record {
  loads = λ s.
      if s == "{}" then ok (obj end) else if s == "0" then ok (num (pos 0)) else err json_error;
  parse_datetime = λ v. ok (some 95);
  uuid_of = λ v. ok (some "run");
  upper = λ s. s;
  is_space = λ c. String.◌∷◌ c String.[] == " ";
  text_of = λ line. "line";
  dispatcher_set = true;
  dispatcher = λ run_id n. answers good_response;
  s3 = λ url n. answers good_response;
  send_tracker = λ message. ok tt;
}

abbrev running_world : World
running_world = world_of (sample_job 1 JobStatus.running 20 ∷ [])

abbrev output : String
output = "text ### JSON START ###{}### JSON END ### more"

section_read : stdout_section sample_outside script output ≡ found "{}"
unfolding stdout_section find_place find_end slice_text
section_read = refl

ansible_section :
    stdout_section sample_outside ansible "\"task_results\": {} }  PLAY RECAP *" ≡ found "{} "
unfolding stdout_section find_place find_end slice_text is_recap recap_follows
ansible_section = refl

parse_json-IsParsed_example :
    IsParsed sample_outside (sample_job 1 JobStatus.running 20) output script running_world (
      parse_json_from_stdout sample_outside
        (sample_job 1 JobStatus.running 20)
        output
        script
        running_world)
parse_json-IsParsed_example =
    parse_json-IsParsed sample_outside (sample_job 1 JobStatus.running 20) output script
      running_world

update_job-IsAnnounced_example :
    IsAnnouncedAt sample_outside
      (sample_job 1 JobStatus.running 20)
      success
      (str "now")
      running_world
      (update_job_status sample_outside
        (sample_job 1 JobStatus.running 20)
        success
        (str "now")
        running_world)
update_job-IsAnnounced_example =
    update_job-IsAnnounced sample_outside (sample_job 1 JobStatus.running 20) success (str "now")
      running_world

fetched : fetch_playbook_dispatcher_stdout sample_outside (sample_job 1 success 95) ended_world ≡ (
  ok (some (str "no results")),
  new_log (sample_job 1 success 95) true (requesting_data "run") ended_world,
)
unfolding fetch_playbook_dispatcher_stdout read_response stdout_of retry_request retry_loop
    after_try
fetched = refl

-- A run that succeeds with an output that has no JSON: its job fails behind its executed task, which
-- stays completed.
abbrev diverged : World
diverged =
    (update_run sample_outside (sample_job 1 JobStatus.running 20)
      (obj (field "status" (str "SUCCESS") end)) (str "now") running_world).1

run_diverges :
    (map (λ (j : Job). j.status) diverged.jobs ≡ JobStatus.failure ∷ [])
    × (map (λ (e : ExecutedTask). e.status) diverged.executed_tasks ≡ completed ∷ [])
unfolding update_run new_status_of status_by_name update_job_status set_status write_status
    announce_job announce_job_by lookup send_job_event finish_update after_update
    fetch_playbook_dispatcher_stdout retry_request retry_loop after_try read_response stdout_of
    save_job save_task finish_task finished_status job_statuses keep_running update_by_statuses
    update_executed_task_status update_for fail_with find_end find_place get_results
    parse_json_from_stdout slice_text stdout_section parse_text
run_diverges = (refl, refl)

abbrev dispatcher : (user org_id : JsonValue) → List String → ℕ → Try
dispatcher user org_id batch n = answers good_response

abbrev user_auth : JsonValue
user_auth =
    obj (field "org_id" (str "9876543") (field "user" (obj (field "username" (str "pat") end)) end))

batches : batched {A = String} ("a" ∷ "b" ∷ "c" ∷ []) 2 ≡ ("a" ∷ "b" ∷ []) ∷ ("c" ∷ []) ∷ []
unfolding fill_batches
batches = refl

cancel-IsCancelled_example :
    (after : ExecutedTask) × (w' : World) × (cancel dispatcher 50 user_auth sample_extask
        running_world
      ≡ (ok after, w'))
    × IsCancelled sample_extask running_world after w'
unfolding job_statuses send_cancels fill_batches retry_request retry_loop after_try principal_of
cancel-IsCancelled_example =
    cancel-IsCancelled dispatcher 50 user_auth sample_extask running_world refl refl (inl refl)
      (λ user org_id. refl)

-- A service account, whose identity has no `user`.
service_account_raises :
    cancel dispatcher 50 (obj (field "org_id" (str "9876543") end)) sample_extask running_world
    ≡ (err (key_error "user"), running_world)
unfolding cancel principal_of
service_account_raises = refl
