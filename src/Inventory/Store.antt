-- ===== src/Inventory/Store.antt =====
-- The writes of advisor_inventory_service.py. The database is a parameter; `transaction.atomic()`
-- gives the state back that it began with where its block raises. The counters are not rolled back.
pub mod Writes
use advisor_backend.Common.{
  ℕ, ◌+◌, ◌-◌, String, Bool, true, false, if◌then◌else◌, Option, none, some, List, [], ◌∷◌, map,
  length, ltb, Exception, Result, ok, err,
}
use advisor_backend.Json.{JsonValue, null, or_else}
use advisor_backend.Inventory.Events.{ParsedInventoryHost, ParsedDeleteEvent, Metrics}
use advisor_backend.Inventory.Batch.{Sorted, start, sort_messages}
use advisor_backend.Inventory.Stale.{Clock, Rows, filter_stale_events}

pub record AdvisorInventoryHost (Time : Type 0) : Type 0 where
  pub inventory_id : JsonValue
  pub display_name : JsonValue
  pub account : JsonValue
  pub org_id : JsonValue
  pub tags : JsonValue
  pub workspace_id : JsonValue
  pub workspace_name : JsonValue
  pub workspace_ungrouped : JsonValue
  pub created : JsonValue
  pub updated : JsonValue
  pub last_check_in : Option Time
  pub insights_id : JsonValue
  pub stale_timestamp : Option Time
  pub reporter : JsonValue
  pub per_reporter_staleness : JsonValue
  pub os_name : JsonValue
  pub os_major : JsonValue
  pub os_minor : JsonValue
  pub host_type : JsonValue
  pub bootc_booted_image : JsonValue
  pub bootc_booted_image_digest : JsonValue
  pub owner_id : JsonValue
  pub rhc_client_id : JsonValue
  pub workloads : JsonValue
  pub system_update_method : JsonValue
  pub infrastructure_type : JsonValue
  pub bios_release_date : JsonValue
  pub bios_vendor : JsonValue
  pub bios_version : JsonValue
  pub release : JsonValue

pub record Host : Type 0 where
  pub inventory_id : JsonValue
  pub account : JsonValue
  pub org_id : JsonValue
  pub satellite_id : JsonValue

-- A pair of organisation and inventory id.
abbrev pub Key : Type 0
Key = JsonValue × JsonValue

-- The queries and statements, each of which may raise. An upsert writes the rows that are not there
-- and updates the others; a deletion gives the number that Django's `delete` returns.
pub record Database (clock : Clock) : Type 1 where
  pub State : Type 0
  pub select_updates : List Key → State → Result (Rows clock)
  pub upsert_inventory : List (AdvisorInventoryHost clock.Time) → State → Result (ℕ × State)
  pub upsert_hosts : List Host → State → Result (ℕ × State)
  pub delete_inventory : List Key → State → Result (ℕ × State)
  pub lock_hosts : List Key → State → Result (List String)
  pub delete_uploads : List String → State → Result (ℕ × State)
  pub delete_current_reports : List String → State → Result (ℕ × State)
  pub delete_host_acks : List String → State → Result (ℕ × State)
  pub delete_hosts : List String → State → Result (ℕ × State)

module _ (clock : Clock) where
  -- ParsedInventoryHost.to_advisor_model
  unfoldable pub to_advisor_model : ParsedInventoryHost → Result (AdvisorInventoryHost clock.Time)
  to_advisor_model h = elim (clock.parse_datetime h.last_check_in) [
    | err e ↦ err e
    | ok last_check_in ↦ elim (clock.parse_datetime h.stale_timestamp) [
      | err e ↦ err e
      | ok stale_timestamp ↦ ok (record {
        inventory_id = h.host_id;
        display_name = h.display_name;
        account = h.account;
        org_id = h.org_id;
        tags = h.tags;
        workspace_id = h.workspace_id;
        workspace_name = h.workspace_name;
        workspace_ungrouped = h.workspace_ungrouped;
        created = h.created;
        updated = h.updated;
        last_check_in = last_check_in;
        insights_id = h.insights_id;
        stale_timestamp = stale_timestamp;
        reporter = h.reporter;
        per_reporter_staleness = h.per_reporter_staleness;
        os_name = h.os_name;
        os_major = h.os_major;
        os_minor = h.os_minor;
        host_type = h.host_type;
        bootc_booted_image = h.bootc_booted_image;
        bootc_booted_image_digest = h.bootc_booted_image_digest;
        owner_id = h.owner_id;
        rhc_client_id = h.rhc_client_id;
        workloads = h.workloads;
        system_update_method = h.system_update_method;
        infrastructure_type = h.infrastructure_type;
        bios_release_date = h.bios_release_date;
        bios_vendor = h.bios_vendor;
        bios_version = h.bios_version;
        release = h.release;
      })
    ]
  ]

  unfoldable pub to_advisor_models :
      List ParsedInventoryHost → Result (List (AdvisorInventoryHost clock.Time))
  to_advisor_models [] = ok []
  to_advisor_models (h ∷ hs) =
      let rest = to_advisor_models hs in
      elim (to_advisor_model h) [
        | err e ↦ err e
        | ok row ↦ elim rest [ err e ↦ err e | ok rows ↦ ok (row ∷ rows) ]
      ]

-- ParsedInventoryHost.to_host_model
unfoldable pub to_host_model : ParsedInventoryHost → Host
to_host_model h = record {
  inventory_id = h.host_id;
  account = h.account;
  org_id = h.org_id;
  satellite_id = or_else h.satellite_id null;
}

abbrev pub upsert_key : ParsedInventoryHost → Key
upsert_key h = (h.org_id, h.host_id)

abbrev pub delete_key : ParsedDeleteEvent → Key
delete_key d = (d.org_id, d.inventory_id)

pub record World (S : Type 0) : Type 0 where
  pub db : S
  pub metrics : Metrics

-- An action on the database and the counters, which may raise.
abbrev pub Action : Type 0 → Type 0 → Type 0
Action S A = World S → Result A × World S

module _ {S : Type 0} where
  infixl 5 ◌>>=◌ ◌>>◌
  abbrev pub ◌>>=◌ : {A B : Type 0} → Action S A → (A → Action S B) → Action S B
  ◌>>=◌ m f w = elim (m w).0 [ ok a ↦ f a (m w).1 | err e ↦ (err e, (m w).1) ]

  abbrev pub ◌>>◌ : {A B : Type 0} → Action S A → Action S B → Action S B
  m >> k = m >>= λ _. k

  abbrev pub pure : {A : Type 0} → A → Action S A
  pure a w = (ok a, w)

  abbrev pub lift : {A : Type 0} → Result A → Action S A
  lift r w = (r, w)

  abbrev pub query : {A : Type 0} → (S → Result A) → Action S A
  query q w = (q w.db, w)

  abbrev pub statement : {A : Type 0} → (S → Result (A × S)) → Action S A
  statement f w = elim (f w.db) [ ok (a, db) ↦ (ok a, record w { db = db }) | err e ↦ (err e, w) ]

  abbrev pub count : (Metrics → Metrics) → Action S (Unit {0})
  count f w = (ok tt, record w { metrics = f w.metrics })

  unfoldable pub atomic : {A : Type 0} → Action S A → Action S A
  atomic m w = elim (m w).0 [
    | ok a ↦ (ok a, (m w).1)
    | err e ↦ (err e, record (m w).1 { db = w.db })
  ]

  -- if condition: action
  abbrev pub when : Bool → Action S (Unit {0}) → Action S (Unit {0})
  when true m = m
  when false m = pure tt

abbrev pub not_empty {ℓ} : {A : Type ℓ} → List A → Bool
not_empty [] = false
not_empty (x ∷ xs) = true

abbrev pub count_upserted : ℕ → Metrics → Metrics
count_upserted n m = record m { host_upserted = m.host_upserted + n }

abbrev pub count_deleted : ℕ → Metrics → Metrics
count_deleted n m = record m { host_deleted = m.host_deleted + n }

abbrev pub count_delete_missing : ℕ → Metrics → Metrics
count_delete_missing n m = record m { host_delete_missing = m.host_delete_missing + n }

module _ (clock : Clock) (database : Database clock) where
  open database use {
    State, select_updates, upsert_inventory, upsert_hosts, delete_inventory, lock_hosts,
    delete_uploads, delete_current_reports, delete_host_acks, delete_hosts,
  }

  -- The block of `bulk_upsert_hosts`.
  unfoldable pub upsert_block :
      List (AdvisorInventoryHost clock.Time) → List Host → Action State (Unit {0})
  upsert_block inv_instances host_instances = do
    advisor_inv_upserted ← statement (upsert_inventory inv_instances)
    host_upserted ← statement (upsert_hosts host_instances)
    count (count_upserted advisor_inv_upserted)

  unfoldable pub bulk_upsert_hosts : List ParsedInventoryHost → Action State (Unit {0})
  bulk_upsert_hosts upserts = do
    inv_instances ← lift (to_advisor_models clock upserts)
    atomic (upsert_block inv_instances (map to_host_model upserts))

  -- The rows of other tables that refer to the hosts, and the hosts.
  unfoldable pub delete_dependents : List String → Action State (Unit {0})
  delete_dependents host_ids = do
    uploads ← statement (delete_uploads host_ids)
    reports ← statement (delete_current_reports host_ids)
    acks ← statement (delete_host_acks host_ids)
    hosts ← statement (delete_hosts host_ids)
    pure tt

  -- The block of `bulk_delete_hosts`, with the number of deleted inventory hosts.
  unfoldable pub delete_block : List Key → Action State ℕ
  delete_block delete_q = do
    deleted_inv_num ← statement (delete_inventory delete_q)
    count (count_deleted deleted_inv_num)
    host_ids ← query (lock_hosts delete_q)
    when (not_empty host_ids) (delete_dependents host_ids)
    pure deleted_inv_num

  -- The end of `bulk_delete_hosts`: `missing` is negative or 0 where nothing is missing.
  unfoldable pub count_missing : ℕ → ℕ → Action State (Unit {0})
  count_missing requested deleted =
      when (ltb 0 (requested - deleted)) (count (count_delete_missing (requested - deleted)))

  unfoldable pub bulk_delete_hosts : List ParsedDeleteEvent → Action State (Unit {0})
  bulk_delete_hosts deletes = do
    deleted ← atomic (delete_block (map delete_key deletes))
    count_missing (length deletes) deleted

  -- `_filter_stale_events` where it is called, with its query.
  unfoldable pub filter_stale : List ParsedInventoryHost → Action State (List ParsedInventoryHost)
  filter_stale upserts w =
      (filter_stale_events clock (λ unique. select_updates (map upsert_key unique) w.db) upserts, w)

  unfoldable pub upsert_fresh : List ParsedInventoryHost → Action State (Unit {0})
  upsert_fresh upserts = do
    fresh ← filter_stale upserts
    when (not_empty fresh) (bulk_upsert_hosts fresh)

  -- The end of `handle_inventory_event`, behind the loop over the messages.
  unfoldable pub write_sorted : Sorted → Action State (Unit {0})
  write_sorted s = do
    when (not_empty s.delete_data) (bulk_delete_hosts s.delete_data)
    when (not_empty s.upserts) (upsert_fresh s.upserts)

  unfoldable pub handle_inventory_event : List JsonValue → Action State (Unit {0})
  handle_inventory_event messages w =
      let s = sort_messages messages (start w.metrics) in
      write_sorted s (record w { metrics = s.metrics })
