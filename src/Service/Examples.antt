-- ===== src/Service/Examples.antt =====
-- Runs of the upload service's helpers on concrete data.
use advisor_backend.Common.{
  ◌+◌, ◌≤◌, ◌≡◌, refl, List, [], ◌∷◌, ok, ℕ, String, Bool, length, true, false, none, some,
  if◌then◌else◌, nat_eq, ◌==◌, err, database_error,
}
use advisor_backend.Json.{JsonValue, null, obj, end, field, str}
use advisor_backend.Common.Actions.{Action}
use advisor_backend.Service.Deletion.{
  ServiceWorld, Deletions, retry_deletion, finish_deletion, delete_or_raise, delete_records,
  check_for_keys, handle_delete, handle_event,
}
use advisor_backend.Service.Deletion.Retried.{IsDeleted, delete_records-IsDeleted}
use advisor_backend.Service.Executor.{
  BoundedExecutor, new_executor, release, acquires, accepts, is_done, Reaches, none_made, made,
}
use advisor_backend.Service.Executor.Bounds.{executor_bounds}
use advisor_backend.Service.Reports.{
  UploadWorld, Report, Rule, CurrentReport, Settings, non_rhel_filter, rhel6_filter,
  report_rule_ids, create_db_reports, process_upload, ViewEvent, count_reports, find_rule,
  update_inventory_view_counts, count_severity, write_reports, write_report_objs, bulk_create,
  sort_reports,
}
use advisor_backend.Service.Reports.Stored.{IsStored, create_db_reports-IsStored}
use advisor_backend.Service.Payload.{traverse_keys, Entry, read_data, key_paths, missing_paths}
use advisor_backend.Service.Payload.Consumed.{AreConsumed, read_data-AreConsumed}

abbrev acquired : BoundedExecutor
acquired = record { initial = 3; permits = 2; submitting = 1; pending = 0 }

abbrev working : BoundedExecutor
working = record { initial = 3; permits = 2; submitting = 0; pending = 1 }

run : Reaches (new_executor 2 1) working
unfolding new_executor
run = made (made none_made (acquires 2 refl) refl) (accepts 0 refl) refl

executor_bounds_example :
    (working.submitting + working.pending ≤ 2 + 1)
    × ((next : BoundedExecutor) × (release (record working { pending = 0 }) ≡ ok next))
executor_bounds_example =
    executor_bounds 2 1 working (release (record working { pending = 0 })) run (is_done 0 refl)

abbrev engine_results : JsonValue
engine_results =
    obj (field "results" (obj (field "reports" (obj end) end)) (field "input" null end))

abbrev entries : List Entry
entries =
    record { key = "engine_reports"; value = obj end; path = [] }
    ∷ record { key = "system_data"; value = null; path = [] }
    ∷ record { key = "platform_data"; value = null; path = "platform_metadata" ∷ [] }
    ∷ record { key = "request_id"; value = null; path = "platform_metadata" ∷ "request_id" ∷ [] }
    ∷ record { key = "inventory_uuid"; value = null; path = "host" ∷ "id" ∷ [] }
    ∷ record { key = "org_id"; value = null; path = "platform_metadata" ∷ "org_id" ∷ [] }
    ∷ []

reads : read_data engine_results key_paths ≡ ok entries
unfolding read_data traverse_keys
reads = refl

logged :
    missing_paths entries
    ≡ []
      ∷ ("platform_metadata" ∷ [])
      ∷ ("platform_metadata" ∷ "request_id" ∷ [])
      ∷ ("host" ∷ "id" ∷ [])
      ∷ ("platform_metadata" ∷ "org_id" ∷ [])
      ∷ []
unfolding missing_paths
logged = refl

read_data-AreConsumed_example : AreConsumed key_paths entries
read_data-AreConsumed_example = read_data-AreConsumed engine_results key_paths entries reads

abbrev sample_rule : ℕ → String → Rule
sample_rule id rule_id = record { id = id; rule_id = rule_id; total_risk = 2; has_incident = false }

abbrev sample_rules : List Rule
sample_rules =
    sample_rule 1 "a|A"
    ∷ sample_rule 2 "b|B"
    ∷ sample_rule 3 "other|V1"
    ∷ sample_rule 4 "other|V2"
    ∷ []

abbrev stored : ℕ → String → CurrentReport
stored id rule_id = record {
  rule = sample_rule id rule_id;
  upload = 1;
  account = none;
  details = null;
  impacted_date = some 5;
}

abbrev sample_settings : Settings
sample_settings = record {
  filter_out_non_rhel = true;
  filter_out_non_rhel_rule_id = "other|V1" ∷ "other|V2" ∷ [];
  filter_out_rhel6 = true;
  filter_out_rhel6_rule_ids = "six|S" ∷ [];
}

-- A report of one of the rules for other systems lets the stored report of the other rule stay.
unreported_stays :
    report_rule_ids sample_settings (
      record { rule_id = "other|V1"; details = null }
      ∷ record { rule_id = "a|A"; details = null }
      ∷ [])
    ≡ "other|V1" ∷ "other|V2" ∷ []
unfolding report_rule_ids non_rhel_filter rhel6_filter
unreported_stays = refl

abbrev upload_world : UploadWorld
upload_world = record { rows = stored 2 "b|B" ∷ []; views = [] }

abbrev sample_reports : List Report
sample_reports = record { rule_id = "a|A"; details = null } ∷ []

abbrev produces : ViewEvent → Bool
produces event = true

create_db_reports-IsStored_example :
    IsStored sample_rules 9 none [] produces
      (ok 2)
      (ok tt)
      (report_rule_ids sample_settings sample_reports)
      upload_world
      sample_reports
      (create_db_reports sample_rules 9 none [] produces
        (ok 2)
        (ok tt)
        sample_settings
        sample_reports
        upload_world)
create_db_reports-IsStored_example =
    create_db_reports-IsStored sample_rules 9 none [] produces (ok 2) (ok tt) sample_settings
      sample_reports upload_world

-- A commit that fails: the reports are as before, and the message is sent.
sent_before_commit :
    length
      (create_db_reports sample_rules 9 none [] produces
        (ok 2)
        (err database_error)
        sample_settings
        sample_reports
        upload_world).1.views
    ≡ 1
unfolding create_db_reports process_upload count_reports find_rule report_rule_ids rhel6_filter
    non_rhel_filter update_inventory_view_counts count_severity write_reports write_report_objs
    bulk_create sort_reports
sent_before_commit = refl

-- A database that fails at its first statement; its state counts the statements.
abbrev flaky : Action ℕ (Unit {0})
flaky n = if n == 0 then (err database_error, 1) else (ok tt, n + 1)

abbrev flaky_deletions : Deletions ℕ
flaky_deletions = record {
  delete_uploads = λ inventory_id org_id. flaky;
  delete_current_reports = λ inventory_id org_id. flaky;
  delete_host_acks = λ inventory_id org_id. flaky;
}

abbrev service_world : ServiceWorld ℕ
service_world = record { db = 0; statuses = []; missing_keys = 0; errors = 0 }

deletes :
    handle_event 3 flaky_deletions
      (obj (
        field "type" (str "delete") (
          field "id"
            (str "h")
            (field "org_id" (str "o") (field "request_id" null (field "timestamp" null end))))))
      service_world
    ≡ (ok tt, record service_world { db = 4; statuses = "received" ∷ "success" ∷ [] })
unfolding handle_event handle_delete check_for_keys delete_records delete_or_raise retry_deletion
    finish_deletion
deletes = refl

delete_records-IsDeleted_example :
    IsDeleted 3 flaky_deletions
      (str "h")
      (str "o")
      service_world
      (delete_records 3 flaky_deletions (str "h") (str "o") service_world)
delete_records-IsDeleted_example =
    delete_records-IsDeleted 3 flaky_deletions (str "h") (str "o") service_world
