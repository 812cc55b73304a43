-- ===== src/Inventory/Examples.antt =====
-- Runs of the inventory events on concrete messages, a concrete clock and a concrete database.
use Prim.Native.Char.{code}
use advisor_backend.Common.{
  ℕ, ◌+◌, String, ◌≡◌, refl, true, false, Option, none, some, List, [], ◌∷◌, length, ltb, Result,
  ok, err, type_error, database_error, All, ◌↔◌,
}
use advisor_backend.Json.{
  JsonValue, null, num, pos, str, arr, obj, nil, end, field, truthy, is_str, json_eq, json_gt,
}
use advisor_backend.Inventory.Events.{
  ParsedInventoryHost, ParsedDeleteEvent, Parsed, parsed, Metrics, nil_uuid, announce, host_fields,
  build_host, check_fields, parse_created_event, delete_fields, parse_deleted_event,
}
use advisor_backend.Inventory.Events.Parsing.{ComesFrom, parse_created-IsAccepted}
use advisor_backend.Inventory.Batch.{
  Sorted, start, add_host, add_delete, sort_typed, sort_message, sort_messages,
}
use advisor_backend.Inventory.Batch.Counting.{accounted, sort_messages-accounted}
use advisor_backend.Inventory.Stale.{
  Clock, Rows, keep_newest, dedupe_item, dedupe, stored_at, is_fresh, keep_fresh, existing_rows,
  filter_stale_events,
}
use advisor_backend.Inventory.Stale.Texts.{HasTexts, HaveDistinctKeys, Covered}
use advisor_backend.Inventory.Stale.Newest.{Occurs, dedupe-newest}
use advisor_backend.Inventory.Stale.Fresh.{IsNews, filter_stale-IsNews}
use advisor_backend.Inventory.Store.{
  Database, World, bulk_delete_hosts, handle_inventory_event, count_deleted,
}
use advisor_backend.Inventory.Store.Writes.{IsPartial, handle-IsPartial, rolled_back_but_counted}

abbrev host_object : String → String → String → JsonValue
host_object id insights_id updated = obj (
    field "id" (str id) (
      field "display_name" (str "web") (
        field "org_id" (str "org") (
          field "tags" (arr nil) (
            field "groups" (arr nil) (
              field "created" (str "1") (
                field "updated" (str updated) (
                  field "last_check_in" (str "3") (
                    field "insights_id" (str insights_id) (
                      field "stale_timestamp" (str "9") (
                        field "system_profile" (obj end) (
                          field "reporter" (str "puptoo")
                            (field "per_reporter_staleness" (obj end) end)))))))))))))

abbrev event : String → JsonValue → JsonValue
event type host = obj (
    field "type" (str type)
      (field "metadata" (obj (field "request_id" (str "r") end)) (field "host" host end)))

abbrev delete_event : JsonValue
delete_event = obj (
    field "type" (str "delete")
      (field "request_id" (str "r") (field "id" (str "h3") (field "org_id" (str "org") end))))

abbrev messages : List JsonValue
messages =
    event "created" (host_object "h1" "i1" "2")
    ∷ event "updated" (host_object "h1" "i1" "4")
    ∷ event "updated" (host_object "h2" nil_uuid "4")
    ∷ event "created" (host_object "h3" "" "4")
    ∷ event "moved" null
    ∷ num (pos 7)
    ∷ delete_event
    ∷ []

abbrev metrics : Metrics
metrics = record {
  missing_keys = 0;
  malformed = 0;
  insights_only = 0;
  host_upserted = 0;
  host_deleted = 0;
  host_delete_missing = 0;
}

program : Unit {0}
unfolding announce host_fields build_host check_fields parse_created_event delete_fields
    parse_deleted_event add_host add_delete sort_typed sort_message sort_messages
program = tt

sorted : Sorted
unfolding program
sorted = sort_messages messages (start metrics)

sorted_counts :
    (length sorted.upserts ≡ 2)
    × (length sorted.delete_data ≡ 1)
    × (sorted.metrics.malformed ≡ 3)
    × (sorted.metrics.insights_only ≡ 1)
    × (sorted.metrics.missing_keys ≡ 1)
unfolding sorted
sorted_counts = (refl, refl, refl, refl, refl)

sort_messages-accounted_example :
    (accounted (sort_messages messages (start metrics)) ≡ 7)
    × ((sort_messages messages (start metrics)).created_count
          + (sort_messages messages (start metrics)).updated_count
        ≡ length (sort_messages messages (start metrics)).upserts)
sort_messages-accounted_example = sort_messages-accounted messages metrics

abbrev first_message : JsonValue
first_message = event "created" (host_object "h1" "i1" "2")

abbrev host_of : Result Parsed × Metrics → ParsedInventoryHost
host_of (ok (parsed h), m) = h
host_of _ = record {
  host_id = null;
  display_name = null;
  account = null;
  org_id = null;
  tags = null;
  workspace_id = null;
  workspace_name = null;
  workspace_ungrouped = null;
  created = null;
  updated = null;
  last_check_in = null;
  insights_id = null;
  satellite_id = null;
  stale_timestamp = null;
  reporter = null;
  per_reporter_staleness = null;
  os_name = null;
  os_major = null;
  os_minor = null;
  host_type = null;
  bootc_booted_image = null;
  bootc_booted_image_digest = null;
  owner_id = null;
  rhc_client_id = null;
  workloads = null;
  system_update_method = null;
  infrastructure_type = null;
  bios_release_date = null;
  bios_vendor = null;
  bios_version = null;
  release = null;
}

abbrev host_from : String → String → ParsedInventoryHost
unfolding program
host_from id updated =
    host_of (parse_created_event (event "created" (host_object id "i1" updated)) metrics)

first_parsed :
    parse_created_event first_message metrics ≡ (ok (parsed (host_from "h1" "2")), metrics)
unfolding program
first_parsed = refl

parse_created-IsAccepted_example :
    (metrics ≡ metrics)
    × (truthy (host_from "h1" "2").insights_id ≡ true)
    × (is_str nil_uuid (host_from "h1" "2").insights_id ≡ false)
    × ComesFrom first_message (host_from "h1" "2")
parse_created-IsAccepted_example =
    parse_created-IsAccepted first_message metrics metrics (host_from "h1" "2") first_parsed

abbrev hosts : List ParsedInventoryHost
hosts = host_from "h1" "2" ∷ host_from "h2" "4" ∷ host_from "h1" "4" ∷ host_from "h1" "3" ∷ []

hosts-HasTexts : All HasTexts hosts
unfolding program
hosts-HasTexts = (texts, (texts', (texts'', (texts''', tt))))
  where
    texts : HasTexts (host_from "h1" "2")
    texts = record { org_id = refl; host_id = refl; updated = refl }

    texts' : HasTexts (host_from "h2" "4")
    texts' = record { org_id = refl; host_id = refl; updated = refl }

    texts'' : HasTexts (host_from "h1" "4")
    texts'' = record { org_id = refl; host_id = refl; updated = refl }

    texts''' : HasTexts (host_from "h1" "3")
    texts''' = record { org_id = refl; host_id = refl; updated = refl }

dedupe-newest_example :
    (unique : List ParsedInventoryHost) × (dedupe hosts [] ≡ ok unique)
    × HaveDistinctKeys unique
    × All (λ a. Occurs a hosts) unique
    × All (λ a. Covered a unique) hosts
dedupe-newest_example = dedupe-newest hosts hosts-HasTexts

-- The time of a text is its first character.
abbrev time_of : JsonValue → Result (Option ℕ)
time_of (str String.[]) = ok none
time_of (str (String.◌∷◌ c s)) = ok (some (code c))
time_of _ = err type_error

abbrev clock : Clock
clock = record { Time = ℕ; parse_datetime = time_of; later = λ u t. ok (ltb t u) }

abbrev rows : Rows clock
rows = ("org", "h1", 49) ∷ ("org", "h2", 57) ∷ []

stale_program : Unit {0}
unfolding program json_eq json_gt keep_newest dedupe_item dedupe stored_at is_fresh keep_fresh
    filter_stale_events
stale_program = tt

filter_runs : filter_stale_events clock (λ unique. ok rows) hosts ≡ ok (host_from "h1" "4" ∷ [])
unfolding stale_program
filter_runs = refl

filter_stale-IsNews_example :
    (unique : List ParsedInventoryHost) × (existing : Rows clock) × (dedupe hosts [] ≡ ok unique)
    × (existing_rows clock (λ unique. ok rows) unique ≡ ok existing)
    × ((item : ParsedInventoryHost)
        → Occurs item (host_from "h1" "4" ∷ []) ↔ (Occurs item unique × IsNews clock existing item))
filter_stale-IsNews_example =
    filter_stale-IsNews clock (λ unique. ok rows) hosts (host_from "h1" "4" ∷ []) filter_runs

-- A database that stores rows of the inventory table, and whose hosts cannot be looked up.
abbrev database : Database clock
database = record {
  State = Rows clock;
  select_updates = λ keys s. ok s;
  upsert_inventory = λ hs s. ok (length hs, s);
  upsert_hosts = λ hs s. ok (length hs, s);
  delete_inventory = λ keys s. ok (length keys, []);
  lock_hosts = λ keys s. err database_error;
  delete_uploads = λ ids s. ok (0, s);
  delete_current_reports = λ ids s. ok (0, s);
  delete_host_acks = λ ids s. ok (0, s);
  delete_hosts = λ ids s. ok (0, s);
}

abbrev world : World (Rows clock)
world = record { db = rows; metrics = metrics }

abbrev deletes : List ParsedDeleteEvent
deletes = record { inventory_id = str "h1"; org_id = str "org" } ∷ []

rolled_back_but_counted_example :
    bulk_delete_hosts clock database deletes world
    ≡ (err database_error, record { db = rows; metrics = count_deleted 1 metrics })
rolled_back_but_counted_example =
    rolled_back_but_counted clock database deletes world 1 [] database_error refl refl

handle-IsPartial_example :
    IsPartial clock database
      (sort_messages messages (start metrics))
      (record { db = rows; metrics = (sort_messages messages (start metrics)).metrics })
      (handle_inventory_event clock database messages world)
handle-IsPartial_example = handle-IsPartial clock database messages world
