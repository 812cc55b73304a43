-- ===== src/Permissions/HostGroups.antt =====
-- `find_host_groups` of api/advisor/api/permissions.py. Logging is left out.
pub mod Restriction
use Prim.Native.Char.{code}
use advisor_backend.Common.{
  ℕ, String, Bool, true, false, ◌&&◌, not, if◌then◌else◌, Option, none, some, List, [], ◌∷◌, ◌++◌,
  ◌==◌, nat_eq, Result, ok, err, value_error, index_error, json_error, ◌>>=◌,
}
use advisor_backend.Json.{
  JsonValue, Items, arr, str, nil, cons, contains_str, subscript, is_obj, is_str,
}
use advisor_backend.Permissions.Permission.{RbacPermission, parse_permission, includes}

-- What the checks write to the request: `host_groups` is unset where there is no restriction.
pub record Request : Type 0 where
  pub host_groups : Option (List JsonValue)
  pub rbac_matched_permission : Option RbacPermission
  pub rbac_match_type : Option String

abbrev pub host_read : RbacPermission
host_read = record {
  string = "inventory:hosts:read";
  app = "inventory";
  resource = "hosts";
  method = "read";
}

abbrev pub items_of : Items → List JsonValue
items_of nil = []
items_of (cons v vs) = v ∷ items_of vs

abbrev last_code : ℕ → String → ℕ
last_code n String.[] = n
last_code n (String.◌∷◌ c s) = last_code (code c) s

-- value[0] == '[' and value[-1] == ']'
abbrev pub is_bracketed : String → Result Bool
is_bracketed String.[] = err index_error
is_bracketed (String.◌∷◌ c s) = ok ((code c == 91) && (last_code (code c) s == 93))

abbrev pub groups_of_list : JsonValue → List JsonValue
groups_of_list (arr vs) = items_of vs
groups_of_list _ = []

abbrev pub groups_of_json : Option JsonValue → Result (List JsonValue)
groups_of_json none = err json_error
groups_of_json (some v) = ok (groups_of_list v)

-- What a resource definition, or a role, adds to the host groups; `unrestricted` is the early return.
pub data Found : Type 0 where
  adds : List JsonValue → Found
  unrestricted : Found

-- `loads` is `json.loads`.
module _ (loads : String → Option JsonValue) where
  unfoldable pub groups_of_value : JsonValue → Result (List JsonValue)
  groups_of_value (str s) = do
    bracketed ← is_bracketed s
    if bracketed then groups_of_json (loads s) else ok []
  groups_of_value v = ok (groups_of_list v)

  unfoldable pub groups_of_filter : JsonValue → Result (List JsonValue)
  groups_of_filter attrfilter = do
    has_key ← contains_str "key" attrfilter
    has_value ← contains_str "value" attrfilter
    if not has_key && not has_value then ok [] else (do
      key ← subscript attrfilter "key"
      if not (is_str "group.id" key)
          then ok []
          else (do value ← subscript attrfilter "value"; groups_of_value value))

  unfoldable pub groups_of_definition : JsonValue → Result (List JsonValue)
  groups_of_definition rscdef = if not (is_obj rscdef) then ok [] else (do
    present ← contains_str "attributeFilter" rscdef
    if not present then ok [] else (do
      attrfilter ← subscript rscdef "attributeFilter"
      if not (is_obj attrfilter) then ok [] else groups_of_filter attrfilter))

  unfoldable pub groups_of_definitions : List JsonValue → Result (List JsonValue)
  groups_of_definitions [] = ok []
  groups_of_definitions (rscdef ∷ rscdefs) = do
    groups ← groups_of_definition rscdef
    rest ← groups_of_definitions rscdefs
    ok (groups ++ rest)

  abbrev pub found_in : JsonValue → Result Found
  found_in (arr nil) = ok unrestricted
  found_in (arr (cons v vs)) = do
    groups ← groups_of_definitions (items_of (cons v vs))
    ok (adds groups)
  found_in _ = ok (adds [])

  -- The end of a round of the loop over the roles, where the role's permission matches.
  unfoldable pub found_in_role : JsonValue → Result Found
  found_in_role role = do
    present ← contains_str "resourceDefinitions" role
    if not present
        then ok (adds [])
        else (do definitions ← subscript role "resourceDefinitions"; found_in definitions)

  abbrev pub found_for : JsonValue → Result RbacPermission → Result Found
  found_for role (ok p) = if not (includes p host_read) then ok (adds []) else found_in_role role
  found_for role (err value_error) = ok (adds [])
  found_for role (err e) = err e

  -- A round of the loop over the roles.
  unfoldable pub role_groups : JsonValue → Result Found
  role_groups role = do
    present ← contains_str "permission" role
    if not present then ok (adds []) else (do
      permission ← subscript role "permission"
      found_for role (parse_permission permission))

  abbrev pub groups_or_unset : List JsonValue → Option (List JsonValue)
  groups_or_unset [] = none
  groups_or_unset (g ∷ gs) = some (g ∷ gs)

  -- The loop, with the host groups so far: what `host_groups` is set to.
  unfoldable pub collect_groups : List JsonValue → List JsonValue → Result (Option (List JsonValue))
  collect_groups [] host_groups = ok (groups_or_unset host_groups)
  collect_groups (role ∷ roles) host_groups = do
    found ← role_groups role
    elim found [
      | unrestricted ↦ ok none
      | adds groups ↦ collect_groups roles (host_groups ++ groups)
    ]

  abbrev pub store_groups : Option (List JsonValue) → Request → Request
  store_groups none request = request
  store_groups (some groups) request = record request { host_groups = some groups }

  unfoldable pub find_host_groups : List JsonValue → Request → Result Request
  find_host_groups role_list request = do
    groups ← collect_groups role_list []
    ok (store_groups groups request)
