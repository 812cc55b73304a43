-- ===== src/Inventory/Stale.antt =====
-- `_filter_stale_events` of advisor_inventory_service.py.
pub mod Texts
pub mod Inserting
pub mod Newest
pub mod Fresh
use advisor_backend.Common.{
  String, Bool, true, false, ◌&&◌, if◌then◌else◌, Option, none, some, List, [], ◌∷◌, Result, ok,
  err, type_error, ◌>>=◌, ◌>>◌,
}
use advisor_backend.Json.{JsonValue, arr, obj, is_str, json_eq, json_gt}
use advisor_backend.Inventory.Events.{ParsedInventoryHost}

-- Django's `parse_datetime` and `>` on the times that it gives; both may raise.
pub record Clock : Type 1 where
  pub Time : Type 0
  pub parse_datetime : JsonValue → Result (Option Time)
  pub later : Time → Time → Result Bool

abbrev pub is_hashable : JsonValue → Bool
is_hashable (arr vs) = false
is_hashable (obj fs) = false
is_hashable _ = true

-- (a.org_id, a.host_id) == (b.org_id, b.host_id)
abbrev pub same_key : ParsedInventoryHost → ParsedInventoryHost → Bool
same_key a b = json_eq a.org_id b.org_id && json_eq a.host_id b.host_id

-- `deduped[key] = item` if the key is new or the item is newer; the values in the order of their keys.
unfoldable pub keep_newest :
    ParsedInventoryHost → List ParsedInventoryHost → Result (List ParsedInventoryHost)
keep_newest item [] = ok (item ∷ [])
keep_newest item (old ∷ rest) =
    let later = keep_newest item rest in
    if same_key item old
    then (do newer ← json_gt item.updated old.updated; ok ((if newer then item else old) ∷ rest))
    else (do kept ← later; ok (old ∷ kept))

-- The key is hashed.
unfoldable pub dedupe_item :
    ParsedInventoryHost → List ParsedInventoryHost → Result (List ParsedInventoryHost)
dedupe_item item deduped =
    if is_hashable item.org_id && is_hashable item.host_id
    then keep_newest item deduped
    else err type_error

unfoldable pub dedupe :
    List ParsedInventoryHost → List ParsedInventoryHost → Result (List ParsedInventoryHost)
dedupe [] deduped = ok deduped
dedupe (item ∷ items) deduped = do deduped' ← dedupe_item item deduped; dedupe items deduped'

module _ (clock : Clock) where
  open clock use {Time, parse_datetime, later}

  -- The rows of the query: organisation, inventory id and time of update.
  abbrev pub Rows : Type 0
  Rows = List (String × String × Time)

  abbrev pub later_entry : Option Time → Option Time → Option Time
  later_entry none o = o
  later_entry (some t) o = some t

  -- existing_ts.get((org_id, host_id)): of two rows with one key the later one counts
  unfoldable pub stored_at : JsonValue → JsonValue → Rows → Option Time
  stored_at org_id host_id [] = none
  stored_at org_id host_id ((org, inventory_id, t) ∷ rows) =
      later_entry (stored_at org_id host_id rows)
        (if is_str org org_id && is_str inventory_id host_id then some t else none)

  abbrev pub later_than : Option Time → Time → Result Bool
  later_than none t = err type_error
  later_than (some u) t = later u t

  -- The condition of the comprehension that builds `fresh`.
  unfoldable pub is_fresh : Rows → ParsedInventoryHost → Result Bool
  is_fresh existing item = elim (stored_at item.org_id item.host_id existing) [
    | none ↦ ok true
    | some t ↦ do updated ← parse_datetime item.updated; later_than updated t
  ]

  unfoldable pub keep_fresh : Rows → List ParsedInventoryHost → Result (List ParsedInventoryHost)
  keep_fresh existing [] = ok []
  keep_fresh existing (item ∷ items) = do
    fresh ← is_fresh existing item
    rest ← keep_fresh existing items
    ok (if fresh then item ∷ rest else rest)

  -- `query` gives the stored rows for the keys of `unique`; `reduce` raises where there is none.
  abbrev pub existing_rows :
      (List ParsedInventoryHost → Result Rows) → List ParsedInventoryHost → Result Rows
  existing_rows query [] = err type_error
  existing_rows query (item ∷ items) = query (item ∷ items)

  unfoldable pub filter_stale_events :
      (List ParsedInventoryHost → Result Rows)
      → List ParsedInventoryHost
      → Result (List ParsedInventoryHost)
  filter_stale_events query upserts = do
    unique ← dedupe upserts []
    existing ← existing_rows query unique
    keep_fresh existing unique
