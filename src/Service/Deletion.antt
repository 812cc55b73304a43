-- ===== src/Service/Deletion.antt =====
-- `handle_inventory_event` of service/service.py: the records of a system that the inventory deleted are
-- deleted. The database is a parameter; `database_error` is OperationalError or InterfaceError.
pub mod Retried
use advisor_backend.Common.{
  ℕ, zero, suc, ◌+◌, String, Bool, true, false, not, if◌then◌else◌, List, [], ◌∷◌, ◌++◌, Exception,
  Result, ok, err, value_error, type_error, attribute_error, database_error, ◌&&◌,
}
use advisor_backend.Common.Actions.{Action, ◌>>=◌, ◌>>◌, pure, raise, lift, modify}
use advisor_backend.Json.{JsonValue, contains_str, get, subscript, is_str, truthy}

abbrev pub is_database_error : Exception → Bool
is_database_error database_error = true
is_database_error _ = false

-- The statuses that the payload tracker is sent, and the counters, beside the database.
pub record ServiceWorld (S : Type 0) : Type 0 where
  pub db : S
  pub statuses : List String
  pub missing_keys : ℕ
  pub errors : ℕ

-- The three deletions for an inventory id and an organisation, of uploads, current reports and host acks.
pub record Deletions (S : Type 0) : Type 0 where
  pub delete_uploads : JsonValue → JsonValue → Action S (Unit {0})
  pub delete_current_reports : JsonValue → JsonValue → Action S (Unit {0})
  pub delete_host_acks : JsonValue → JsonValue → Action S (Unit {0})

-- What the loop ends with: its `break`, its `else` with the last error, or an exception that it does
-- not catch.
pub data Tried : Type 0 where
  deleted : Tried
  given_up : Exception → Tried
  raised : Exception → Tried

module _ {S : Type 0} where
  -- One pass behind the deletion: `next` goes on with the passes that are left.
  abbrev pub after_deletion : Result (Unit {0}) × S → (Exception → S → Tried × S) → Tried × S
  after_deletion (ok u, s) next = (deleted, s)
  after_deletion (err e, s) next = if is_database_error e then next e s else (raised e, s)

  -- The loop of DB_RETRY_CONSTANT passes, with the last error.
  unfoldable pub retry_deletion : ℕ → Action S (Unit {0}) → Exception → S → Tried × S
  retry_deletion zero delete last_error s = (given_up last_error, s)
  retry_deletion (suc left) delete last_error s =
      after_deletion (delete s) (retry_deletion left delete)

  -- inventory_event_error: the status and the counter, and the last error is raised
  abbrev pub inventory_event_error : Exception → Action (ServiceWorld S) (Unit {0})
  inventory_event_error last_error w =
      (err last_error, record w { statuses = w.statuses ++ "error" ∷ []; errors = w.errors + 1 })

  unfoldable pub finish_deletion : Tried × S → Action (ServiceWorld S) (Unit {0})
  finish_deletion (deleted, s) w = (ok tt, record w { db = s })
  finish_deletion (given_up e, s) w = inventory_event_error e (record w { db = s })
  finish_deletion (raised e, s) w = (err e, record w { db = s })

  -- `raise None`, where no pass is made, is a TypeError.
  unfoldable pub delete_or_raise : ℕ → Action S (Unit {0}) → Action (ServiceWorld S) (Unit {0})
  delete_or_raise retries delete w =
      finish_deletion (retry_deletion retries delete type_error w.db) w

  abbrev pub payload_status : String → ServiceWorld S → ServiceWorld S
  payload_status status w = record w { statuses = w.statuses ++ status ∷ [] }

  module _ (retries : ℕ) (deletions : Deletions S) where
    unfoldable pub delete_records : JsonValue → JsonValue → Action (ServiceWorld S) (Unit {0})
    delete_records inventory_id org_id = do
      modify (payload_status "received")
      delete_or_raise retries (deletions.delete_uploads inventory_id org_id)
      delete_or_raise retries (deletions.delete_current_reports inventory_id org_id)
      delete_or_raise retries (deletions.delete_host_acks inventory_id org_id)
      modify (payload_status "success")

    abbrev pub all_keys : List String → JsonValue → Result Bool
    all_keys [] message = ok true
    all_keys (k ∷ ks) message = elim (contains_str k message) [
      | err e ↦ err e
      | ok has ↦ elim (all_keys ks message) [ err e ↦ err e | ok rest ↦ ok (has && rest) ]
    ]

    -- check_for_keys: its status for the tracker is not sent, since the message is no bytes
    unfoldable pub check_for_keys : JsonValue → Action (ServiceWorld S) (Unit {0})
    check_for_keys message w =
        elim (all_keys ("id" ∷ "org_id" ∷ "request_id" ∷ "type" ∷ "timestamp" ∷ []) message) [
          | err e ↦ (err e, w)
          | ok true ↦ (ok tt, w)
          | ok false ↦ (err value_error, record w { missing_keys = w.missing_keys + 1 })
        ]

    unfoldable pub handle_delete : JsonValue → Action (ServiceWorld S) (Unit {0})
    handle_delete message = do
      check_for_keys message
      inventory_id ← lift (subscript message "id")
      org_id ← lift (subscript message "org_id")
      delete_records inventory_id org_id

    unfoldable pub handle_event : JsonValue → Action (ServiceWorld S) (Unit {0})
    handle_event message = do
      event_type ← lift (get message "type")
      if truthy event_type
          then (if is_str "delete" event_type then handle_delete message else pure tt)
          else raise value_error
