-- ===== src/Tasks/Stdout.antt =====
-- `parse_json_from_stdout` of api/advisor/tasks/management/commands/tasks_service.py, for an output
-- that is a text.
pub mod Outcome
use Prim.Native.String
use Prim.Native.Char.{Char}
use text.Mathlib.Text.{starts_with}
use advisor_backend.Common.{
  ℕ, zero, suc, ◌+◌, ◌-◌, String, Bool, true, false, if◌then◌else◌, Option, none, some, Result, ok,
  err, type_error, string_eq, ◌==◌,
}
use advisor_backend.Json.{
  JsonValue, Fields, bool, str, obj, end, field, contains_str, option_or, find_field,
}
use advisor_backend.Tasks.Models.{
  JobStatus, Job, LogLine, World, got_stdout, no_prefix, no_pattern, no_suffix, parsed, not_parsed,
  success, new_log, save_job,
}
use advisor_backend.Tasks.Outside.{Outside}

pub data TaskType : Type 0 where
  ansible : TaskType
  script : TaskType

-- JSON_DELIMITERS
abbrev pub prefix_of : TaskType → String
prefix_of ansible = "\"task_results\": "
prefix_of script = "### JSON START ###"

abbrev pub source_of : TaskType → String
source_of ansible = "Playbook Dispatcher"
source_of script = "Cloud Connector"

abbrev pub text_length : String → ℕ
text_length String.[] = 0
text_length (String.◌∷◌ c s) = suc (text_length s)

abbrev pub drop_text : ℕ → String → String
drop_text zero s = s
drop_text (suc n) String.[] = String.[]
drop_text (suc n) (String.◌∷◌ c s) = drop_text n s

abbrev pub take_text : ℕ → String → String
take_text zero s = String.[]
take_text (suc n) String.[] = String.[]
take_text (suc n) (String.◌∷◌ c s) = String.◌∷◌ c (take_text n s)

-- s[start:stop]
unfoldable pub slice_text : String → ℕ → ℕ → String
slice_text s start stop = take_text (stop - start) (drop_text start s)

abbrev pub next_place : Option ℕ → Option ℕ
next_place none = none
next_place (some n) = some (suc n)

-- The first place where a test holds of the rest of the text.
unfoldable pub find_place : (String → Bool) → String → Option ℕ
find_place test String.[] = if test String.[] then some 0 else none
find_place test (String.◌∷◌ c s) =
    let later = find_place test s in if test (String.◌∷◌ c s) then some 0 else next_place later

abbrev pub no_end : TaskType → LogLine
no_end ansible = no_pattern
no_end script = no_suffix

-- The text between the delimiters, or the line that says which of them is missing.
pub data Section : Type 0 where
  missing : LogLine → Section
  found : String → Section

-- v[k] = x, for an object
abbrev pub put_field : String → JsonValue → Fields → Fields
put_field k x end = field k x end
put_field k x (field j v fs) = if j == k then field j x fs else field j v (put_field k x fs)

abbrev pub is_true : Result Bool → Bool
is_true (ok b) = b
is_true (err e) = false

-- The results with their 'alert', which the code adds to an object only. Of anything else that has
-- no 'alert' it raises: first in the `try`, and in the handler again, which writes the message into it.
unfoldable pub with_alert : JsonValue → Result JsonValue
with_alert (obj fs) = ok (
    obj (
      if is_true (contains_str "alert" (obj fs))
      then fs
      else put_field "alert" (option_or (find_field "error" fs) (bool false)) fs))
with_alert v = if is_true (contains_str "alert" v) then ok v else err type_error

-- The value that was loaded.
unfoldable pub accept_results :
    Job → Result JsonValue → World → Result (JobStatus × JsonValue) × World
accept_results job (ok results) w = (ok (success, results), new_log job true parsed w)
accept_results job (err e) w = (err e, new_log job false not_parsed w)

abbrev pub save_results : Job → Result (JobStatus × JsonValue) × World → Result Job × World
save_results job (ok (status, results), w) =
    let job' : Job = record job { status = status; results = results } in
    (ok job', record w { jobs = save_job job' w.jobs })
save_results job (err e, w) = (err e, w)

-- The job with its output, saved and logged.
abbrev pub with_stdout : String → Job → Job
with_stdout stdout job = record job { stdout = stdout }

abbrev pub save_stdout : TaskType → String → Job → World → World
save_stdout task_type stdout job w =
    new_log job true (got_stdout (source_of task_type))
      (record w { jobs = save_job (with_stdout stdout job) w.jobs })

module _ (outside : Outside) where
  open outside use {is_space, loads, text_of}

  -- `\s*PLAY RECAP \*`, and the pattern with the brace and one space at least in front.
  unfoldable pub recap_follows : String → Bool
  recap_follows String.[] = false
  recap_follows (String.◌∷◌ c s) =
      let rest = recap_follows s in
      if is_space c then rest else starts_with (String.◌∷◌ c s) "PLAY RECAP *"

  unfoldable pub is_recap : String → Bool
  is_recap (String.◌∷◌ c (String.◌∷◌ d s)) =
      if String.◌∷◌ c String.[] == "}" then if is_space d then recap_follows s else false else false
  is_recap _ = false

  -- The place where the JSON text ends, which for a script is looked for from `start` on.
  unfoldable pub find_end : TaskType → String → ℕ → Option ℕ
  find_end ansible stdout start = find_place is_recap stdout
  find_end script stdout start =
      elim (find_place (λ s. starts_with s "### JSON END ###") (drop_text start stdout)) [
        | none ↦ none
        | some n ↦ some (start + n)
      ]

  unfoldable pub stdout_section : TaskType → String → Section
  stdout_section task_type stdout =
      elim (find_place (λ s. starts_with s (prefix_of task_type)) stdout) [
        | none ↦ missing no_prefix
        | some n ↦ elim (find_end task_type stdout (n + text_length (prefix_of task_type))) [
          | none ↦ missing (no_end task_type)
          | some stop ↦ found (slice_text stdout (n + text_length (prefix_of task_type)) stop)
        ]
      ]

  -- The results that tell of an error.
  abbrev pub error_results : LogLine → JsonValue
  error_results line = obj (
      field "error" (bool true)
        (field "alert" (bool true) (field "message" (str (text_of line)) end)))

  unfoldable pub fail_with : Job → LogLine → World → Result (JobStatus × JsonValue) × World
  fail_with job line w = (ok (JobStatus.failure, error_results line), new_log job false line w)

  unfoldable pub load_results :
      Job → Result JsonValue → World → Result (JobStatus × JsonValue) × World
  load_results job (err e) w = fail_with job not_parsed w
  load_results job (ok v) w = accept_results job (with_alert v) w

  unfoldable pub get_results : Job → Section → World → Result (JobStatus × JsonValue) × World
  get_results job (missing line) w = fail_with job line w
  get_results job (found text) w = load_results job (loads text) w

  -- The job behind the call, and the world.
  unfoldable pub parse_json_from_stdout : Job → String → TaskType → World → Result Job × World
  parse_json_from_stdout job stdout task_type w = save_results (with_stdout stdout job) (
      get_results (with_stdout stdout job) (stdout_section task_type stdout)
        (save_stdout task_type stdout job w))
