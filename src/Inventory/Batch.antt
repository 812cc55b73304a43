-- ===== src/Inventory/Batch.antt =====
-- `handle_inventory_event`, first half: the messages of a batch are sorted into hosts to write and
-- hosts to delete.
pub mod Counting
use advisor_backend.Common.{
  ℕ, ◌+◌, String, Bool, true, false, if◌then◌else◌, Option, none, some, List, [], ◌∷◌, ◌++◌, Result,
  ok, err,
}
use advisor_backend.Json.{JsonValue, contains_str, subscript, is_str}
use advisor_backend.Inventory.Events.{
  ParsedInventoryHost, ParsedDeleteEvent, Parsed, parsed, insights_only_filtered, invalid, Metrics,
  log_missing_key, count_malformed, parse_created_event, parse_deleted_event,
}

-- The local variables of the loop over the messages.
pub record Sorted : Type 0 where
  pub upserts : List ParsedInventoryHost
  pub created_count : ℕ
  pub updated_count : ℕ
  pub delete_data : List ParsedDeleteEvent
  pub metrics : Metrics

abbrev pub start : Metrics → Sorted
start m = record {
  upserts = [];
  created_count = 0;
  updated_count = 0;
  delete_data = [];
  metrics = m;
}

abbrev pub skip : Metrics → Sorted → Sorted
skip m s = record s { metrics = count_malformed m }

-- The `created` and `updated` cases, by what the parser gave; `created` tells which counter goes up.
unfoldable pub add_host : Bool → Result Parsed × Metrics → Sorted → Sorted
add_host created (ok (parsed h), m) s = record s {
  upserts = s.upserts ++ h ∷ [];
  created_count = if created then s.created_count + 1 else s.created_count;
  updated_count = if created then s.updated_count else s.updated_count + 1;
  metrics = m;
}
add_host created (ok insights_only_filtered, m) s = record s { metrics = m }
add_host created (ok invalid, m) s = skip m s
add_host created (err e, m) s = skip m s

-- The `delete` case.
unfoldable pub add_delete : Result (Option ParsedDeleteEvent) × Metrics → Sorted → Sorted
add_delete (ok (some d), m) s = record s { delete_data = s.delete_data ++ d ∷ []; metrics = m }
add_delete (ok none, m) s = skip m s
add_delete (err e, m) s = skip m s

unfoldable pub sort_typed : JsonValue → JsonValue → Sorted → Sorted
sort_typed type message s =
    if is_str "created" type
    then add_host true (parse_created_event message s.metrics) s
    else if is_str "updated" type
    then add_host false (parse_created_event message s.metrics) s
    else if is_str "delete" type
    then add_delete (parse_deleted_event message s.metrics) s
    else skip s.metrics s

-- One round of the loop: `'type' not in message`, the `match`, and `except Exception`.
unfoldable pub sort_message : JsonValue → Sorted → Sorted
sort_message message s = elim (contains_str "type" message) [
  | err e ↦ skip s.metrics s
  | ok present ↦
      if present
      then elim (subscript message "type") [
        | ok type ↦ sort_typed type message s
        | err e ↦ skip s.metrics s
      ]
      else skip (log_missing_key s.metrics) s
]

unfoldable pub sort_messages : List JsonValue → Sorted → Sorted
sort_messages [] s = s
sort_messages (message ∷ messages) s = sort_messages messages (sort_message message s)
