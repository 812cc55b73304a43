-- ===== src/Inventory/Batch/Counting.antt =====
-- The loop of `handle_inventory_event` accounts for every message.
use advisor_backend.Common.{
  ℕ, ◌+◌, ◌≤◌, ◌≡◌, refl, Bool, true, false, if◌then◌else◌, Option, none, some, List, [], ◌∷◌,
  arith, Result, ok, err, length, length-append, not, key_error,
}
use advisor_backend.Json.{JsonValue, contains_str, subscript, is_str, truthy}
use advisor_backend.Inventory.Events.{
  ParsedInventoryHost, ParsedDeleteEvent, Parsed, parsed, insights_only_filtered, invalid, Metrics,
  HostFields, log_missing_key, count_insights_only, parsed_host, nil_uuid, build_host, check_fields,
  host_fields, announce, delete_fields, parse_created_event, parse_deleted_event, catch_missing_key,
}
use advisor_backend.Inventory.Batch.{
  Sorted, start, skip, add_host, add_delete, sort_typed, sort_message, sort_messages,
}

-- The messages that `s` accounts for: to be written, to be deleted, counted as malformed, or left out
-- for a nil insights id.
abbrev pub accounted : Sorted → ℕ
accounted s =
    length s.upserts + length s.delete_data + s.metrics.malformed + s.metrics.insights_only

-- What a parser may do to the counters.
record Counted (m m' : Metrics) (filtered : ℕ) : Type 0 where
  malformed : m'.malformed ≡ m.malformed
  insights_only : m'.insights_only ≡ m.insights_only + filtered
  missing : m.missing_keys ≤ m'.missing_keys

abbrev CountedHost : Metrics → Result Parsed × Metrics → Type 0
CountedHost m (ok (parsed h), m') = m' ≡ m
CountedHost m (ok insights_only_filtered, m') = Counted m m' 1
CountedHost m (ok invalid, m') = Counted m m' 0
CountedHost m (err e, m') = m' ≡ m

checked-CountedHost :
    (present nil : Bool) (r : Result ParsedInventoryHost) (m : Metrics)
    → CountedHost m (
        if not present
        then (ok invalid, log_missing_key m)
        else if nil
        then (ok insights_only_filtered, count_insights_only m)
        else (parsed_host r, m))
checked-CountedHost false nil r m = omega arith
checked-CountedHost true true r m = omega arith
checked-CountedHost true false (ok h) m = refl
checked-CountedHost true false (err e) m = refl

check_fields-CountedHost : (r : Result HostFields) (m : Metrics) → CountedHost m (check_fields r m)
unfolding check_fields
check_fields-CountedHost (ok f) m =
    checked-CountedHost (truthy f.insights_id) (is_str nil_uuid f.insights_id) (build_host f) m
check_fields-CountedHost (err (key_error k)) m = omega arith
check_fields-CountedHost (err _) m = refl

parse_created-CountedHost :
    (message : JsonValue) (m : Metrics) → CountedHost m (parse_created_event message m)
unfolding parse_created_event
parse_created-CountedHost message m =
    elim (announce message)
      as (λ a.
        CountedHost m
          (elim a [ ok _ ↦ check_fields (host_fields message) m | err e ↦ (err e, m) ])) [
            | ok _ ↦ check_fields-CountedHost (host_fields message) m
            | err e ↦ refl
          ]

abbrev CountedDelete : Metrics → Result (Option ParsedDeleteEvent) × Metrics → Type 0
CountedDelete m (ok (some d), m') = m' ≡ m
CountedDelete m (ok none, m') = Counted m m' 0
CountedDelete m (err e, m') = m' ≡ m

catch_missing_key-CountedDelete :
    (r : Result ParsedDeleteEvent) (m : Metrics) → CountedDelete m (catch_missing_key r m)
catch_missing_key-CountedDelete (ok d) m = refl
catch_missing_key-CountedDelete (err (key_error k)) m = omega arith
catch_missing_key-CountedDelete (err _) m = refl

-- One more message is accounted for, and the counters of the kinds of upserts stay right.
record Step (s t : Sorted) : Type 0 where
  one_more : accounted t ≡ accounted s + 1
  kinds :
      t.created_count + t.updated_count + length s.upserts
      ≡ s.created_count + s.updated_count + length t.upserts

add_host-Step :
    (created : Bool) (s : Sorted) (r : Result Parsed × Metrics)
    → CountedHost s.metrics r
    → Step s (add_host created r s)
unfolding add_host
add_host-Step created s (ok (parsed h), m) c = record {
  one_more = ground (arith, length-append s.upserts (h ∷ []), c);
  kinds = ground (arith, length-append s.upserts (h ∷ []));
}
add_host-Step created s (ok insights_only_filtered, m) c = record {
  one_more = omega (arith, c.malformed, c.insights_only);
  kinds = refl;
}
add_host-Step created s (ok invalid, m) c = record { one_more = ground arith; kinds = refl }
add_host-Step created s (err e, m) c = record { one_more = ground arith; kinds = refl }

add_delete-Step :
    (s : Sorted) (r : Result (Option ParsedDeleteEvent) × Metrics)
    → CountedDelete s.metrics r
    → Step s (add_delete r s)
unfolding add_delete
add_delete-Step s (ok (some d), m) c = record {
  one_more = ground (arith, length-append s.delete_data (d ∷ []), c);
  kinds = refl;
}
add_delete-Step s (ok none, m) c = record { one_more = ground arith; kinds = refl }
add_delete-Step s (err e, m) c = record { one_more = ground arith; kinds = refl }

skip-Step : (s : Sorted) → Step s (skip s.metrics s)
skip-Step s = record { one_more = omega arith; kinds = refl }

if_Step : (b : Bool) (s t u : Sorted) → Step s t → Step s u → Step s (if b then t else u)
if_Step true s t u ht hu = ht
if_Step false s t u ht hu = hu

sort_typed-Step : (type message : JsonValue) (s : Sorted) → Step s (sort_typed type message s)
unfolding sort_typed parse_deleted_event
sort_typed-Step type message s =
    if_Step (is_str "created" type) s _ _
      (add_host-Step true s (parse_created_event message s.metrics)
        (parse_created-CountedHost message s.metrics))
      (if_Step (is_str "updated" type) s _ _
        (add_host-Step false s (parse_created_event message s.metrics)
          (parse_created-CountedHost message s.metrics))
        (if_Step (is_str "delete" type) s _ _
          (add_delete-Step s (parse_deleted_event message s.metrics)
            (catch_missing_key-CountedDelete (delete_fields message) s.metrics))
          (skip-Step s)))

sort_message-Step : (message : JsonValue) (s : Sorted) → Step s (sort_message message s)
unfolding sort_message
sort_message-Step message s =
    elim (contains_str "type" message)
      as (λ c. Step s (elim c [
        | err e ↦ skip s.metrics s
        | ok present ↦
            if present
            then elim (subscript message "type") [
              | ok type ↦ sort_typed type message s
              | err e ↦ skip s.metrics s
            ]
            else skip (log_missing_key s.metrics) s
      ])) [
        | err e ↦ skip-Step s
        | ok present ↦
            if_Step present s _ _
              (elim (subscript message "type")
                as (λ r.
                  Step s
                    (elim r [ ok type ↦ sort_typed type message s | err e ↦ skip s.metrics s ])) [
                      | ok type ↦ sort_typed-Step type message s
                      | err e ↦ skip-Step s
                    ])
              (record { one_more = omega arith; kinds = refl })
      ]

sort_messages-Steps :
    (messages : List JsonValue) (s : Sorted)
    → (accounted (sort_messages messages s) ≡ accounted s + length messages)
      × ((sort_messages messages s).created_count
            + (sort_messages messages s).updated_count
            + length s.upserts
          ≡ s.created_count + s.updated_count + length (sort_messages messages s).upserts)
unfolding sort_messages
sort_messages-Steps [] s = omega arith
sort_messages-Steps (message ∷ messages) s =
    omega
      (arith, sort_message-Step message s, sort_messages-Steps messages (sort_message message s))

-- Every message of a batch is accounted for exactly once, whatever it is: it gives a host to write or
-- a host to delete, or one of the two counters of malformed events and of nil insights ids goes up
-- by one. And the counts of created and of updated hosts add up to the hosts to write.
pub sort_messages-accounted :
    (messages : List JsonValue) (m : Metrics)
    → (accounted (sort_messages messages (start m))
        ≡ m.malformed + m.insights_only + length messages)
      × ((sort_messages messages (start m)).created_count
            + (sort_messages messages (start m)).updated_count
          ≡ length (sort_messages messages (start m)).upserts)
sort_messages-accounted messages m = omega (arith, sort_messages-Steps messages (start m))
