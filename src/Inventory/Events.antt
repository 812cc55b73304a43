-- ===== src/Inventory/Events.antt =====
-- The events of advisor_inventory_service.py and their parsers. Logging is left out; the Prometheus
-- counters are the `Metrics`.
pub mod Parsing
use advisor_backend.Common.{
  ℕ, ◌+◌, String, Bool, true, false, not, if◌then◌else◌, Option, none, some, Result, ok, err,
  key_error, ◌>>=◌, ◌>>◌,
}
use advisor_backend.Json.{
  JsonValue, null, obj, end, truthy, or_else, option_or, get_or, get, subscript, first_item,
  find_field, is_obj, is_str,
}

abbrev pub nil_uuid : String
nil_uuid = "00000000-0000-0000-0000-000000000000"

pub record ParsedInventoryHost : Type 0 where
  pub host_id : JsonValue
  pub display_name : JsonValue
  pub account : JsonValue
  pub org_id : JsonValue
  pub tags : JsonValue
  pub workspace_id : JsonValue
  pub workspace_name : JsonValue
  pub workspace_ungrouped : JsonValue
  pub created : JsonValue
  pub updated : JsonValue
  pub last_check_in : JsonValue
  pub insights_id : JsonValue
  pub satellite_id : JsonValue
  pub stale_timestamp : JsonValue
  pub reporter : JsonValue
  pub per_reporter_staleness : JsonValue
  pub os_name : JsonValue
  pub os_major : JsonValue
  pub os_minor : JsonValue
  pub host_type : JsonValue
  pub bootc_booted_image : JsonValue
  pub bootc_booted_image_digest : JsonValue
  pub owner_id : JsonValue
  pub rhc_client_id : JsonValue
  pub workloads : JsonValue
  pub system_update_method : JsonValue
  pub infrastructure_type : JsonValue
  pub bios_release_date : JsonValue
  pub bios_vendor : JsonValue
  pub bios_version : JsonValue
  pub release : JsonValue

pub record ParsedDeleteEvent : Type 0 where
  pub inventory_id : JsonValue
  pub org_id : JsonValue

-- What `parse_created_event` returns: a host, `INSIGHTS_ONLY_FILTERED` or `None`.
pub data Parsed : Type 0 where
  parsed : ParsedInventoryHost → Parsed
  insights_only_filtered invalid : Parsed

pub record Metrics : Type 0 where
  pub missing_keys : ℕ
  pub malformed : ℕ
  pub insights_only : ℕ
  pub host_upserted : ℕ
  pub host_deleted : ℕ
  pub host_delete_missing : ℕ

abbrev pub log_missing_key : Metrics → Metrics
log_missing_key m = record m { missing_keys = m.missing_keys + 1 }

abbrev pub count_malformed : Metrics → Metrics
count_malformed m = record m { malformed = m.malformed + 1 }

abbrev pub count_insights_only : Metrics → Metrics
count_insights_only m = record m { insights_only = m.insights_only + 1 }

-- The local variables that the `try` block of `parse_created_event` sets.
pub record HostFields : Type 0 where
  pub host_id : JsonValue
  pub display_name : JsonValue
  pub account : JsonValue
  pub org_id : JsonValue
  pub tags : JsonValue
  pub groups : JsonValue
  pub created : JsonValue
  pub updated : JsonValue
  pub last_check_in : JsonValue
  pub insights_id : JsonValue
  pub satellite_id : JsonValue
  pub stale_timestamp : JsonValue
  pub system_profile : JsonValue
  pub reporter : JsonValue
  pub per_reporter_staleness : JsonValue

-- What stands above the `try` block. It raises for a `host` that is true and no dict.
unfoldable pub announce : JsonValue → Result JsonValue
announce message = do
  event_type ← subscript message "type"
  host ← get_or message "host" (obj end)
  org_id ← get (or_else host (obj end)) "org_id"
  get (or_else host (obj end)) "id"

-- The `try` block.
unfoldable pub host_fields : JsonValue → Result HostFields
host_fields message = do
  metadata ← subscript message "metadata"
  request_id ← subscript metadata "request_id"
  host ← subscript message "host"
  host_id ← subscript host "id"
  display_name ← subscript host "display_name"
  account ← get host "account"
  org_id ← subscript host "org_id"
  tags ← subscript host "tags"
  groups ← subscript host "groups"
  created ← subscript host "created"
  updated ← subscript host "updated"
  last_check_in ← subscript host "last_check_in"
  insights_id ← subscript host "insights_id"
  satellite_id ← get host "satellite_id"
  stale_timestamp ← subscript host "stale_timestamp"
  system_profile ← subscript host "system_profile"
  reporter ← subscript host "reporter"
  per_reporter_staleness ← subscript host "per_reporter_staleness"
  ok (record {
    host_id = host_id;
    display_name = display_name;
    account = account;
    org_id = org_id;
    tags = tags;
    groups = groups;
    created = created;
    updated = updated;
    last_check_in = last_check_in;
    insights_id = insights_id;
    satellite_id = satellite_id;
    stale_timestamp = stale_timestamp;
    system_profile = system_profile;
    reporter = reporter;
    per_reporter_staleness = per_reporter_staleness;
  })

-- v.get(k) if isinstance(v, dict) else None
abbrev pub get_if_dict : JsonValue → String → JsonValue
get_if_dict (obj fs) k = option_or (find_field k fs) null
get_if_dict _ k = null

-- v if isinstance(v, dict) else {}
abbrev pub dict_or_empty : JsonValue → JsonValue
dict_or_empty v = if is_obj v then v else obj end

-- bootc.get('booted', {}) if isinstance(bootc, dict) else {}
abbrev pub booted_of : JsonValue → JsonValue
booted_of (obj fs) = option_or (find_field "booted" fs) (obj end)
booted_of _ = obj end

-- groups[0].get(k) if groups else None
abbrev pub group_field : JsonValue → String → Result JsonValue
group_field groups k =
    if truthy groups then (do group ← first_item groups; get group k) else ok null

-- The end of `parse_created_event`: the fields of the system profile, and the parsed host.
unfoldable pub build_host : HostFields → Result ParsedInventoryHost
build_host f = do
  os_info ← get_or f.system_profile "operating_system" (obj end)
  bootc ← get_or f.system_profile "bootc_status" (obj end)
  workloads ← get_or f.system_profile "workloads" (obj end)
  workspace_id ← group_field f.groups "id"
  workspace_name ← group_field f.groups "name"
  workspace_ungrouped ← group_field f.groups "ungrouped"
  host_type ← get f.system_profile "host_type"
  owner_id ← get f.system_profile "owner_id"
  rhc_client_id ← get f.system_profile "rhc_client_id"
  system_update_method ← get f.system_profile "system_update_method"
  infrastructure_type ← get f.system_profile "infrastructure_type"
  bios_release_date ← get f.system_profile "bios_release_date"
  bios_vendor ← get f.system_profile "bios_vendor"
  bios_version ← get f.system_profile "bios_version"
  release ← get f.system_profile "release"
  ok (record {
    host_id = f.host_id;
    display_name = f.display_name;
    account = f.account;
    org_id = f.org_id;
    tags = f.tags;
    workspace_id = workspace_id;
    workspace_name = workspace_name;
    workspace_ungrouped = workspace_ungrouped;
    created = f.created;
    updated = f.updated;
    last_check_in = f.last_check_in;
    insights_id = f.insights_id;
    satellite_id = f.satellite_id;
    stale_timestamp = f.stale_timestamp;
    reporter = f.reporter;
    per_reporter_staleness = f.per_reporter_staleness;
    os_name = get_if_dict os_info "name";
    os_major = get_if_dict os_info "major";
    os_minor = get_if_dict os_info "minor";
    host_type = host_type;
    bootc_booted_image = get_if_dict (booted_of bootc) "image";
    bootc_booted_image_digest = get_if_dict (booted_of bootc) "image_digest";
    owner_id = or_else owner_id null;
    rhc_client_id = or_else rhc_client_id null;
    workloads = dict_or_empty workloads;
    system_update_method = system_update_method;
    infrastructure_type = infrastructure_type;
    bios_release_date = bios_release_date;
    bios_vendor = bios_vendor;
    bios_version = bios_version;
    release = release;
  })

abbrev pub parsed_host : Result ParsedInventoryHost → Result Parsed
parsed_host (ok h) = ok (parsed h)
parsed_host (err e) = err e

-- What follows the `try` block, its `except KeyError` included.
unfoldable pub check_fields : Result HostFields → Metrics → Result Parsed × Metrics
check_fields (err (key_error k)) m = (ok invalid, log_missing_key m)
check_fields (err e) m = (err e, m)
check_fields (ok f) m =
    if not (truthy f.insights_id)
    then (ok invalid, log_missing_key m)
    else if is_str nil_uuid f.insights_id
    then (ok insights_only_filtered, count_insights_only m)
    else (parsed_host (build_host f), m)

unfoldable pub parse_created_event : JsonValue → Metrics → Result Parsed × Metrics
parse_created_event message m = elim (announce message) [
  | ok _ ↦ check_fields (host_fields message) m
  | err e ↦ (err e, m)
]

-- The `try` block of `parse_deleted_event`.
unfoldable pub delete_fields : JsonValue → Result ParsedDeleteEvent
delete_fields message = do
  request_id ← subscript message "request_id"
  inventory_id ← subscript message "id"
  account ← get message "account"
  org_id ← subscript message "org_id"
  ok (record { inventory_id = inventory_id; org_id = org_id })

abbrev pub catch_missing_key :
    Result ParsedDeleteEvent → Metrics → Result (Option ParsedDeleteEvent) × Metrics
catch_missing_key (ok d) m = (ok (some d), m)
catch_missing_key (err (key_error k)) m = (ok none, log_missing_key m)
catch_missing_key (err e) m = (err e, m)

unfoldable pub parse_deleted_event :
    JsonValue → Metrics → Result (Option ParsedDeleteEvent) × Metrics
parse_deleted_event message = catch_missing_key (delete_fields message)
