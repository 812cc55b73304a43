-- ===== src/Tasks/Models.antt =====
-- The models of api/advisor/tasks/models.py as rows, and `send_event_message` of tasks/kafka_utils.py.
-- An object of the program is a copy of its row: `save` writes all its fields. Times are numbers.
use advisor_backend.Common.{
  ℕ, String, Bool, Option, none, some, List, [], ◌∷◌, ◌++◌, if◌then◌else◌, nat_eq, ◌==◌, any,
}
use advisor_backend.Common.Dict.{Dict}
use advisor_backend.Json.{JsonValue}

pub data ExecutedTaskStatus : Type 0 where
  running : ExecutedTaskStatus
  completed : ExecutedTaskStatus
  completed_with_errors : ExecutedTaskStatus
  failure : ExecutedTaskStatus
  cancelled : ExecutedTaskStatus

pub data JobStatus : Type 0 where
  running : JobStatus
  success : JobStatus
  failure : JobStatus
  timeout : JobStatus
  cancelled : JobStatus

-- ExecutedTaskStatusChoices and JobStatusChoices: the numbers that the tables hold.
abbrev pub task_value : ExecutedTaskStatus → ℕ
task_value ExecutedTaskStatus.running = 1
task_value completed = 2
task_value completed_with_errors = 3
task_value ExecutedTaskStatus.failure = 4
task_value ExecutedTaskStatus.cancelled = 5

abbrev pub job_value : JobStatus → ℕ
job_value JobStatus.running = 1
job_value success = 2
job_value JobStatus.failure = 3
job_value timeout = 4
job_value JobStatus.cancelled = 5

abbrev pub same_task_status : ExecutedTaskStatus → ExecutedTaskStatus → Bool
same_task_status a b = task_value a == task_value b

abbrev pub same_job_status : JobStatus → JobStatus → Bool
same_job_status a b = job_value a == job_value b

-- get_status_display and label
abbrev pub task_label : ExecutedTaskStatus → String
task_label ExecutedTaskStatus.running = "Running"
task_label completed = "Completed"
task_label completed_with_errors = "Completed With Errors"
task_label ExecutedTaskStatus.failure = "Failure"
task_label ExecutedTaskStatus.cancelled = "Cancelled"

abbrev pub job_label : JobStatus → String
job_label JobStatus.running = "Running"
job_label success = "Success"
job_label JobStatus.failure = "Failure"
job_label timeout = "Timeout"
job_label JobStatus.cancelled = "Cancelled"

pub record Task : Type 0 where
  pub id : ℕ
  pub slug : String
  pub timeout : ℕ
  pub active : Bool

pub record ExecutedTask : Type 0 where
  pub id : ℕ
  pub name : String
  pub task : Task
  pub org_id : String
  pub initiated_by : String
  pub is_org_admin : Bool
  pub start_time : ℕ
  pub end_time : Option ℕ
  pub status : ExecutedTaskStatus
  pub token : String

pub record Job : Type 0 where
  pub id : ℕ
  pub executed_task_id : ℕ
  pub system_id : String
  pub status : JobStatus
  pub stdout : String
  pub results : JsonValue
  pub updated_on : ℕ
  pub run_id : String
  pub rhc_client_id : Option String

-- The lines of the job logs, with what is put into their texts.
pub data LogLine : Type 0 where
  got_stdout : String → LogLine
  no_prefix no_pattern no_suffix : LogLine
  parsed : LogLine
  not_parsed : LogLine
  requesting_data : String → LogLine
  not_fetched : String → LogLine
  updated_status : JobStatus → ℕ → String → LogLine
  sent_message : JobStatus → String → String → String → LogLine
  no_more_jobs : String → ℕ → LogLine
  timed_out : ℕ → String → LogLine
  dispatched : String → String → LogLine
  not_dispatched : String → ℕ → LogLine

pub record JobLog : Type 0 where
  pub job_id : ℕ
  pub is_ok : Bool
  pub line : LogLine

-- The payloads of the events: of a job, and of an executed task.
pub data Payload : Type 0 where
  of_job : (system_uuid display_name status : String) → Payload
  of_task : (task_name task_slug : String) → (executed_task_id : ℕ) → (status : String) → Payload

-- What the notifications topic is sent. The context of a job's event names its executed task.
pub record Event : Type 0 where
  pub event_type : String
  pub org_id : String
  pub context : Option (String × String × ℕ)
  pub payloads : List Payload

-- The tables, the events that were handed to Kafka, the id of the next job, and the time.
pub record World : Type 0 where
  pub executed_tasks : List ExecutedTask
  pub jobs : List Job
  pub logs : List JobLog
  pub hosts : Dict String String
  pub sent : List Event
  pub next_id : ℕ
  pub now : ℕ

-- save: UPDATE by the primary key, and INSERT where it has met no row
abbrev pub update_task : ExecutedTask → List ExecutedTask → List ExecutedTask
update_task t [] = []
update_task t (r ∷ rows) = (if r.id == t.id then t else r) ∷ update_task t rows

unfoldable pub save_task : ExecutedTask → List ExecutedTask → List ExecutedTask
save_task t rows =
    if any (λ (r : ExecutedTask). r.id == t.id) rows then update_task t rows else rows ++ t ∷ []

abbrev pub find_task : ℕ → List ExecutedTask → Option ExecutedTask
find_task i [] = none
find_task i (r ∷ rows) = if r.id == i then some r else find_task i rows

abbrev pub update_job : Job → List Job → List Job
update_job j [] = []
update_job j (r ∷ rows) = (if r.id == j.id then j else r) ∷ update_job j rows

unfoldable pub save_job : Job → List Job → List Job
save_job j rows = if any (λ (r : Job). r.id == j.id) rows then update_job j rows else rows ++ j ∷ []

abbrev pub find_job : ℕ → List Job → Option Job
find_job i [] = none
find_job i (r ∷ rows) = if r.id == i then some r else find_job i rows

-- Job.new_log
abbrev pub new_log : Job → Bool → LogLine → World → World
new_log job is_ok line w = record w {
  logs = w.logs ++ record { job_id = job.id; is_ok = is_ok; line = line } ∷ [];
}

-- `send_kafka_message` may raise, which is caught.
abbrev pub send_event_message : Event → World → World
send_event_message e w = elim e.payloads [ [] ↦ w | _ ∷ _ ↦ record w { sent = w.sent ++ e ∷ [] } ]
