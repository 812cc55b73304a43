-- ===== src/Inventory/Events/Parsing.antt =====
-- What the parsers of advisor_inventory_service.py accept.
use advisor_backend.Common.{
  ◌≡◌, refl, Bool, true, false, if◌then◌else◌, Result, ok, err, key_error, sym, ap, subst, ◌∙◌, not,
  OnOk, OnOk-bind,
}
use advisor_backend.Json.{JsonValue, subscript, is_str, truthy, get, get_or, obj, end}
use advisor_backend.Inventory.Events.{
  ParsedInventoryHost, Parsed, parsed, insights_only_filtered, invalid, log_missing_key,
  count_insights_only, parsed_host, Metrics, HostFields, nil_uuid, announce, host_fields,
  build_host, group_field, check_fields, parse_created_event,
}

-- The event's `host` object, and what of it a parsed host keeps.
pub record ComesFrom (message : JsonValue) (h : ParsedInventoryHost) : Type 0 where
  pub host : JsonValue
  pub has_host : subscript message "host" ≡ ok host
  pub has_id : subscript host "id" ≡ ok h.host_id
  pub has_org_id : subscript host "org_id" ≡ ok h.org_id
  pub has_updated : subscript host "updated" ≡ ok h.updated
  pub has_insights_id : subscript host "insights_id" ≡ ok h.insights_id

record FieldsFrom (message : JsonValue) (f : HostFields) : Type 0 where
  host : JsonValue
  has_host : subscript message "host" ≡ ok host
  has_id : subscript host "id" ≡ ok f.host_id
  has_org_id : subscript host "org_id" ≡ ok f.org_id
  has_updated : subscript host "updated" ≡ ok f.updated
  has_insights_id : subscript host "insights_id" ≡ ok f.insights_id

host_fields-FieldsFrom : (message : JsonValue) → OnOk (FieldsFrom message) (host_fields message)
unfolding host_fields
host_fields-FieldsFrom message = OnOk-bind P (subscript message "metadata") _ λ metadata _.
    OnOk-bind P (subscript metadata "request_id") _ λ request_id _.
      OnOk-bind P (subscript message "host") _ λ host has_host.
        OnOk-bind P (subscript host "id") _ λ host_id has_host_id.
          OnOk-bind P (subscript host "display_name") _ λ display_name has_display_name.
            OnOk-bind P (get host "account") _ λ account has_account.
              OnOk-bind P (subscript host "org_id") _ λ org_id has_org_id.
                OnOk-bind P (subscript host "tags") _ λ tags has_tags.
                  OnOk-bind P (subscript host "groups") _ λ groups has_groups.
                    OnOk-bind P (subscript host "created") _ λ created has_created.
                      OnOk-bind P (subscript host "updated") _ λ updated has_updated.
                        OnOk-bind P (subscript host "last_check_in") _
                          λ last_check_in has_last_check_in.
                            OnOk-bind P (subscript host "insights_id") _
                              λ insights_id has_insights_id.
                                OnOk-bind P (get host "satellite_id") _
                                  λ satellite_id has_satellite_id.
                                    OnOk-bind P (subscript host "stale_timestamp") _
                                      λ stale_timestamp has_stale_timestamp.
                                        OnOk-bind P (subscript host "system_profile") _
                                          λ system_profile has_system_profile.
                                            OnOk-bind P (subscript host "reporter") _
                                              λ reporter has_reporter.
                                                OnOk-bind P
                                                  (subscript host "per_reporter_staleness") _
                                                  λ per_reporter_staleness
                                                      has_per_reporter_staleness.
                                                    record {
                                                      host = host;
                                                      has_host = has_host;
                                                      has_id = has_host_id;
                                                      has_org_id = has_org_id;
                                                      has_updated = has_updated;
                                                      has_insights_id = has_insights_id;
                                                    }
  where
    P : HostFields → Type 0
    P = FieldsFrom message

-- `build_host` copies the fields that identify a host and its version.
abbrev Copies : HostFields → ParsedInventoryHost → Type 0
Copies f h =
    (h.host_id ≡ f.host_id)
    × (h.org_id ≡ f.org_id)
    × (h.updated ≡ f.updated)
    × (h.insights_id ≡ f.insights_id)

build_host-Copies : (f : HostFields) → OnOk (Copies f) (build_host f)
unfolding build_host
build_host-Copies f = OnOk-bind P (get_or f.system_profile "operating_system" (obj end)) _ λ _ _.
    OnOk-bind P (get_or f.system_profile "bootc_status" (obj end)) _ λ _ _.
      OnOk-bind P (get_or f.system_profile "workloads" (obj end)) _ λ _ _.
        OnOk-bind P (group_field f.groups "id") _ λ _ _.
          OnOk-bind P (group_field f.groups "name") _ λ _ _.
            OnOk-bind P (group_field f.groups "ungrouped") _ λ _ _.
              OnOk-bind P (get f.system_profile "host_type") _ λ _ _.
                OnOk-bind P (get f.system_profile "owner_id") _ λ _ _.
                  OnOk-bind P (get f.system_profile "rhc_client_id") _ λ _ _.
                    OnOk-bind P (get f.system_profile "system_update_method") _ λ _ _.
                      OnOk-bind P (get f.system_profile "infrastructure_type") _ λ _ _.
                        OnOk-bind P (get f.system_profile "bios_release_date") _ λ _ _.
                          OnOk-bind P (get f.system_profile "bios_vendor") _ λ _ _.
                            OnOk-bind P (get f.system_profile "bios_version") _ λ _ _.
                              OnOk-bind P (get f.system_profile "release") _
                                λ _ _. (refl, refl, refl, refl)
  where
    P : ParsedInventoryHost → Type 0
    P = Copies f

-- What a host that the parser lets through satisfies.
abbrev IsAccepted : JsonValue → Metrics → Result Parsed × Metrics → Type 0
IsAccepted message m (ok (parsed h), m') =
    (m' ≡ m)
    × (truthy h.insights_id ≡ true)
    × (is_str nil_uuid h.insights_id ≡ false)
    × ComesFrom message h
IsAccepted message m _ = Unit

build_host-IsAccepted :
    (message : JsonValue) (m : Metrics) (f : HostFields) (present nil : Bool)
    → truthy f.insights_id ≡ present
    → is_str nil_uuid f.insights_id ≡ nil
    → FieldsFrom message f
    → (r : Result ParsedInventoryHost) → OnOk (Copies f) r
    → IsAccepted message m (
        if not present
        then (ok invalid, log_missing_key m)
        else if nil
        then (ok insights_only_filtered, count_insights_only m)
        else (parsed_host r, m))
build_host-IsAccepted message m f false nil p n fs r c = tt
build_host-IsAccepted message m f true true p n fs r c = tt
build_host-IsAccepted message m f true false p n fs (err e) c = tt
build_host-IsAccepted message m f true false p n fs (ok h) (id, org, updated, insights) = (
  refl,
  rw insights p,
  rw insights n,
  record {
    host = fs.host;
    has_host = fs.has_host;
    has_id = fs.has_id ∙ ap ok (sym id);
    has_org_id = fs.has_org_id ∙ ap ok (sym org);
    has_updated = fs.has_updated ∙ ap ok (sym updated);
    has_insights_id = fs.has_insights_id ∙ ap ok (sym insights);
  },
)

check_fields-IsAccepted :
    (message : JsonValue) (m : Metrics) (r : Result HostFields)
    → OnOk (FieldsFrom message) r
    → IsAccepted message m (check_fields r m)
unfolding check_fields
check_fields-IsAccepted message m (ok f) fs =
    build_host-IsAccepted message m f (truthy f.insights_id) (is_str nil_uuid f.insights_id) refl
      refl fs (build_host f) (build_host-Copies f)
check_fields-IsAccepted message m (err (key_error k)) fs = tt
check_fields-IsAccepted message m (err _) fs = tt

-- A host that `parse_created_event` gives has an insights id that is neither empty nor the nil UUID,
-- its id, organisation, insights id and time of update are those of the event's `host` object, and no
-- counter has changed.
pub parse_created-IsAccepted :
    (message : JsonValue) (m m' : Metrics) (h : ParsedInventoryHost)
    → parse_created_event message m ≡ (ok (parsed h), m')
    → (m' ≡ m)
      × (truthy h.insights_id ≡ true)
      × (is_str nil_uuid h.insights_id ≡ false)
      × ComesFrom message h
unfolding parse_created_event
parse_created-IsAccepted message m m' h e = subst (IsAccepted message m) e (go (announce message))
  where
    go :
        (a : Result JsonValue)
        → IsAccepted message m
            (elim a [ ok _ ↦ check_fields (host_fields message) m | err x ↦ (err x, m) ])
    go (ok _) =
        check_fields-IsAccepted message m (host_fields message) (host_fields-FieldsFrom message)
    go (err x) = tt
