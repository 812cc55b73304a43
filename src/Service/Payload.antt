-- ===== src/Service/Payload.antt =====
-- `traverse_keys` of service/utils.py, and the look-up of the required keys at the beginning of
-- `handle_engine_results` of service/service.py.
pub mod Consumed
use advisor_backend.Common.{
  String, Bool, true, false, not, if◌then◌else◌, List, [], ◌∷◌, Result, ok, err, index_error, ◌>>=◌,
}
use advisor_backend.Common.Dict.{Dict}
use advisor_backend.Json.{JsonValue, null, get_or, truthy}

-- The item and what is left of the list `keys`, from which the code pops.
unfoldable pub traverse_keys :
    JsonValue → List String → (default : JsonValue) → Result (JsonValue × List String)
traverse_keys d [] default = err index_error
traverse_keys d (key ∷ []) default = do item ← get_or d key default; ok (item, [])
traverse_keys d (key ∷ key' ∷ keys) default = get_or d key default >>= λ item. elim (truthy item) [
  | false ↦ ok (default, key' ∷ keys)
  | true ↦ traverse_keys item (key' ∷ keys) default
]

-- An entry of `data`, with the path that `key_paths` has for the key from now on.
pub record Entry : Type 0 where
  pub key : String
  pub value : JsonValue
  pub path : List String

abbrev pub key_paths : Dict String (List String)
key_paths =
    ("engine_reports", "results" ∷ "reports" ∷ [])
    ∷ ("system_data", "results" ∷ "system" ∷ [])
    ∷ ("platform_data", "input" ∷ "platform_metadata" ∷ [])
    ∷ ("request_id", "input" ∷ "platform_metadata" ∷ "request_id" ∷ [])
    ∷ ("inventory_uuid", "input" ∷ "host" ∷ "id" ∷ [])
    ∷ ("org_id", "input" ∷ "platform_metadata" ∷ "org_id" ∷ [])
    ∷ []

-- The comprehension that builds `data`.
unfoldable pub read_data : JsonValue → Dict String (List String) → Result (List Entry)
read_data engine_results [] = ok []
read_data engine_results ((key, path) ∷ paths) = do
  found ← traverse_keys engine_results path null
  rest ← read_data engine_results paths
  ok (record { key = key; value = found.0; path = found.1 } ∷ rest)

abbrev pub is_null : JsonValue → Bool
is_null null = true
is_null _ = false

-- The paths that `bad_payload` writes to the log for the keys without a value.
unfoldable pub missing_paths : List Entry → List (List String)
missing_paths [] = []
missing_paths (entry ∷ entries) =
    let rest = missing_paths entries in if is_null entry.value then entry.path ∷ rest else rest
