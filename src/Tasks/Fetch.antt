-- ===== src/Tasks/Fetch.antt =====
-- `fetch_playbook_dispatcher_stdout` of api/advisor/tasks/management/commands/tasks_service.py. The lines
-- that it logs for the different faults of an answer are one line here.
use advisor_backend.Common.{
  true, false, if◌then◌else◌, Option, none, some, Result, ok, err, string_eq, nat_eq, ◌==◌,
}
use advisor_backend.Common.Actions.{Action, ◌>>=◌, ◌>>◌, pure, lift, modify}
use advisor_backend.Json.{JsonValue, arr, obj, cons, contains_str, subscript}
use advisor_backend.Requests.{Response, retry_request}
use advisor_backend.Tasks.Models.{Job, World, requesting_data, not_fetched, new_log}
use advisor_backend.Tasks.Outside.{Outside}

-- The checks of the dispatcher's answer, up to the value of 'stdout'.
unfoldable pub stdout_of : JsonValue → Result (Option JsonValue)
stdout_of (obj fs) = elim (contains_str "data" (obj fs)) [
  | err e ↦ err e
  | ok false ↦ ok none
  | ok true ↦ elim (subscript (obj fs) "data") [
    | ok (arr (cons (obj gs) vs)) ↦ first_stdout (obj gs)
    | _ ↦ ok none
  ]
]
  where
    first_stdout : JsonValue → Result (Option JsonValue)
    first_stdout v = elim (contains_str "stdout" v) [
      | err e ↦ err e
      | ok false ↦ ok none
      | ok true ↦ elim (subscript v "stdout") [ ok s ↦ ok (some s) | err e ↦ err e ]
    ]
stdout_of v = ok none

abbrev pub log_fetch : Job → Option JsonValue → Action World (Option JsonValue)
log_fetch job none w = (ok none, new_log job false (not_fetched job.run_id) w)
log_fetch job (some v) w = (ok (some v), w)

unfoldable pub read_response : Job → Response → Action World (Option JsonValue)
read_response job response =
    if response.status_code == 200
    then (do json ← lift response.json; found ← lift (stdout_of json); log_fetch job found)
    else log_fetch job none

module _ (outside : Outside) where
  open outside use {dispatcher_set, dispatcher}

  unfoldable pub fetch_playbook_dispatcher_stdout : Job → Action World (Option JsonValue)
  fetch_playbook_dispatcher_stdout job =
      if dispatcher_set
      then (do
        modify (new_log job true (requesting_data job.run_id))
        response ← lift (retry_request false (dispatcher job.run_id) 1).0
        read_response job response)
      else pure none
