-- ===== src/Tasks/Views.antt =====
-- The part of api/advisor/tasks/views/executed_task.py that writes: `cancel`, `destroy`,
-- `create_jobs_for_executed_task` and `send_start_messages`. Who may see an executed task is left out.
pub mod Cancelled
use advisor_backend.Common.{
  ℕ, zero, suc, ◌+◌, String, Bool, true, false, not, ◌&&◌, if◌then◌else◌, Option, none, some, List,
  [], ◌∷◌, ◌++◌, map, filter, Result, ok, err, index_error, attribute_error, other_error, string_eq,
  nat_eq, ◌==◌, ◌-◌,
}
use advisor_backend.Common.Actions.{Action, ◌>>=◌, ◌>>◌, pure, raise, lift, modify, query}
use advisor_backend.Common.Dict.{lookup}
use advisor_backend.Json.{
  JsonValue, Fields, null, num, pos, str, obj, end, get, subscript, truthy, json_eq,
}
use advisor_backend.Requests.{Try, retry_request}
use advisor_backend.Tasks.Models.{
  ExecutedTaskStatus, JobStatus, ExecutedTask, Job, World, Event, Payload, of_task, of_job,
  dispatched, not_dispatched, same_task_status, same_job_status, task_label, job_label, new_log,
  send_event_message,
}
use advisor_backend.Tasks.Status.{jobs_of, delete_task, update_executed_task_status}

-- itertools.batched; `room` is what fits into the batch that is being filled.
unfoldable pub fill_batches {ℓ} : {A : Type ℓ} → ℕ → ℕ → List A → List A → List (List A)
fill_batches size room [] [] = []
fill_batches size room (b ∷ bs) [] = (b ∷ bs) ∷ []
fill_batches size zero batch (x ∷ xs) = batch ∷ fill_batches size (size - 1) (x ∷ []) xs
fill_batches size (suc room) batch (x ∷ xs) = fill_batches size room (batch ++ x ∷ []) xs

abbrev pub batched {ℓ} : {A : Type ℓ} → List A → ℕ → List (List A)
batched xs size = fill_batches size size [] xs

abbrev pub is_running_of : ExecutedTask → Job → Bool
is_running_of extask job =
    (job.executed_task_id == extask.id) && same_job_status JobStatus.running job.status

-- running_jobs.update(status=CANCELLED)
abbrev pub cancel_job : ExecutedTask → Job → Job
cancel_job extask job =
    if is_running_of extask job then record job { status = JobStatus.cancelled } else job

abbrev pub cancel_jobs : ExecutedTask → World → World
cancel_jobs extask w = record w { jobs = map (cancel_job extask) w.jobs }

abbrev pub run_ids : ExecutedTask → List Job → List String
run_ids extask jobs = map (λ (j : Job). j.run_id) (filter (is_running_of extask) jobs)

-- The requests to the dispatcher, each for a batch of runs; what it answers does not matter.
unfoldable pub send_cancels : (List String → ℕ → Try) → List (List String) → Result (Unit {0})
send_cancels dispatcher [] = ok tt
send_cancels dispatcher (batch ∷ batches) = elim (retry_request false (dispatcher batch) 1).0 [
  | err e ↦ err e
  | ok response ↦ send_cancels dispatcher batches
]

unfoldable pub update_status : ExecutedTask → Action World ExecutedTask
update_status extask w =
    let updated = update_executed_task_status extask none true false w in (ok updated.0, updated.1)

-- request.auth['user']['username'] and request.auth['org_id']
unfoldable pub principal_of : JsonValue → Result (JsonValue × JsonValue)
principal_of auth = elim (subscript auth "user") [
  | err e ↦ err e
  | ok user_data ↦ elim (subscript user_data "username") [
    | err e ↦ err e
    | ok user ↦ elim (subscript auth "org_id") [ err e ↦ err e | ok org_id ↦ ok (user, org_id) ]
  ]
]

-- ExecutedTaskViewSet.cancel; `dispatcher` is what becomes of the n-th request for a principal and its
-- runs.
unfoldable pub cancel :
    (dispatcher : (user org_id : JsonValue) → List String → ℕ → Try)
    → (batch_size : ℕ) → (auth : JsonValue) → ExecutedTask
    → Action World ExecutedTask
cancel dispatcher batch_size auth extask =
    if same_task_status extask.status ExecutedTaskStatus.running
    then (do
      who ← lift (principal_of auth)
      runs ← query (λ w. ok (run_ids extask w.jobs))
      lift (send_cancels (dispatcher who.0 who.1) (batched runs batch_size))
      modify (cancel_jobs extask)
      update_status extask)
    else pure extask

-- ExecutedTaskViewSet.destroy: the jobs go with their executed task
unfoldable pub destroy : ExecutedTask → World → World
destroy extask w =
    let deleted = delete_task extask w in
    record deleted {
      jobs = filter (λ (j : Job). not (j.executed_task_id == extask.id)) deleted.jobs;
    }

-- The values of a host that is dispatched to.
pub record DispatchHost : Type 0 where
  pub inventory_id : String
  pub effective_rhc_client_id : Option String

abbrev pub job_status_of : Bool → JobStatus
job_status_of true = JobStatus.running
job_status_of false = JobStatus.failure

-- uuid.UUID(int=0)
abbrev pub nil_run_id : String
nil_run_id = "00000000-0000-0000-0000-000000000000"

-- The run id that the table holds, by the conversion to a UUID.
abbrev pub run_uuid : (JsonValue → Result (Option String)) → JsonValue → Result String
run_uuid uuid_of run_id =
    if truthy run_id
    then elim (uuid_of run_id) [ err e ↦ err e | ok none ↦ err other_error | ok (some u) ↦ ok u ]
    else ok nil_run_id

abbrev pub new_job : ExecutedTask → DispatchHost → JobStatus → String → ℕ → ℕ → Job
new_job extask host status run_id now id = record {
  id = id;
  executed_task_id = extask.id;
  system_id = host.inventory_id;
  status = status;
  stdout = "";
  results = obj end;
  updated_on = now;
  run_id = run_id;
  rhc_client_id = host.effective_rhc_client_id;
}

-- job.save() of a new job: the table gives it its id
unfoldable pub insert_job : ExecutedTask → DispatchHost → JobStatus → String → ℕ → Action World Job
insert_job extask host status run_id now w =
    let job = new_job extask host status run_id now w.next_id in
    (ok job, record w { jobs = w.jobs ++ job ∷ []; next_id = w.next_id + 1 })

-- The status code of a run that was refused; 404 has a text of its own, by the same line.
abbrev pub code_of : JsonValue → ℕ
code_of (num (pos n)) = n
code_of v = 0

unfoldable pub log_dispatch : String → JsonValue → Bool → Job → Action World (Unit {0})
log_dispatch dispatcher run true job = modify (new_log job true (dispatched dispatcher job.run_id))
log_dispatch dispatcher run false job = do
  code ← lift (subscript run "code")
  modify (new_log job false (not_dispatched dispatcher (code_of code)))

abbrev pub first_run : List JsonValue → Result (JsonValue × List JsonValue)
first_run [] = err index_error
first_run (run ∷ runs) = ok (run, runs)

module _ (uuid_of : JsonValue → Result (Option String)) (dispatcher : String) (now : ℕ) where
  -- The job of one host, and whether it was started.
  unfoldable pub create_job : ExecutedTask → DispatchHost → JsonValue → Action World (Job × Bool)
  create_job extask host run = do
    run_id ← lift (get run "id")
    uuid ← lift (run_uuid uuid_of run_id)
    job ← insert_job extask host (job_status_of (truthy run_id)) uuid now
    log_dispatch dispatcher run (truthy run_id) job
    pure (job, truthy run_id)

  abbrev pub add_job : Job × Bool → List Job × List Job → List Job × List Job
  add_job (job, true) (started, failed) = (job ∷ started, failed)
  add_job (job, false) (started, failed) = (started, job ∷ failed)

  -- The loop over the hosts and their runs: the started jobs and the failed ones, in order.
  unfoldable pub create_jobs :
      ExecutedTask → List DispatchHost → List JsonValue → Action World (List Job × List Job)
  create_jobs extask [] runs = pure ([], [])
  create_jobs extask (host ∷ hosts) runs = do
    (run, later) ← lift (first_run runs)
    created ← create_job extask host run
    rest ← create_jobs extask hosts later
    pure (add_job created rest)

  unfoldable pub create_jobs_for_executed_task :
      ExecutedTask → List DispatchHost → List JsonValue → Action World (List Job × List Job)
  create_jobs_for_executed_task extask hosts runs_created = do
    jobs ← create_jobs extask hosts runs_created
    extask' ← update_status extask
    pure jobs

abbrev pub start_event : ExecutedTask → Event
start_event extask = record {
  event_type = "executed-task-started";
  org_id = extask.org_id;
  context = none;
  payloads = of_task extask.name extask.task.slug extask.id (task_label extask.status) ∷ [];
}

-- The payloads of jobs, each of which needs its system.
unfoldable pub job_payloads : List Job → World → Result (List Payload)
job_payloads [] w = ok []
job_payloads (job ∷ jobs) w =
    let rest = job_payloads jobs w in
    elim (lookup job.system_id w.hosts) [
      | none ↦ err other_error
      | some display_name ↦ elim rest [
        | err e ↦ err e
        | ok payloads ↦ ok (of_job job.system_id display_name (job_label job.status) ∷ payloads)
      ]
    ]

-- A message is sent only where there are jobs: an event without payloads is not.
unfoldable pub send_job_start_messages : ExecutedTask → String → List Job → Action World (Unit {0})
send_job_start_messages extask event_type jobs = do
  payloads ← query (job_payloads jobs)
  modify (
      send_event_message (record {
        event_type = event_type;
        org_id = extask.org_id;
        context = some (extask.name, extask.task.slug, extask.id);
        payloads = payloads;
      }))

unfoldable pub send_start_messages : ExecutedTask → List Job → List Job → Action World (Unit {0})
send_start_messages extask started_jobs failed_jobs = do
  modify (send_event_message (start_event extask))
  send_job_start_messages extask "job-started" started_jobs
  send_job_start_messages extask "job-failed" failed_jobs
