-- ===== src/Permissions/Roles.antt =====
-- The loop of `has_rbac_permission` of api/advisor/api/permissions.py over the user's roles. Logging
-- is left out.
pub mod Granting
use advisor_backend.Common.{
  ℕ, String, Bool, true, false, not, if◌then◌else◌, Option, none, some, List, [], ◌∷◌, ◌==◌, nat_eq,
  string_eq, Result, ok, err, value_error, type_error, attribute_error, other_error, ◌>>=◌,
}
use advisor_backend.Json.{JsonValue, str, arr, contains_str, subscript}
use advisor_backend.Permissions.Permission.{
  RbacPermission, parse_permission, same_permission, includes,
}
use advisor_backend.Permissions.HostGroups.{Request, items_of, find_host_groups}

abbrev pub caught : Result RbacPermission → Result (Option RbacPermission)
caught (ok p) = ok (some p)
caught (err value_error) = ok none
caught (err e) = err e

-- The permission of a role, `none` where the role is passed over.
unfoldable pub permission_of : JsonValue → Result (Option RbacPermission)
permission_of role_info = do
  present ← contains_str "permission" role_info
  if not present
      then ok none
      else (do permission ← subscript role_info "permission"; caught (parse_permission permission))

abbrev pub matched : RbacPermission → String → Request → Request
matched p type request = record request {
  rbac_matched_permission = some p;
  rbac_match_type = some type;
}

unfoldable pub find_permission : RbacPermission → List JsonValue → Request → Result (Bool × Request)
find_permission sought [] request = ok (false, request)
find_permission sought (role_info ∷ roles) request =
    let rest = find_permission sought roles request in
    permission_of role_info >>= λ o. elim o [
      | none ↦ rest
      | some p ↦
          if same_permission p sought
          then ok (true, matched p "exact" request)
          else if includes p sought
          then ok (true, matched p "contains" request)
          else rest
    ]

-- An answer of the RBAC service; `json` is what `response.json()` gives, and `content_text` what
-- `response.content.decode()` does, for the log.
pub record Response : Type 0 where
  pub status_code : ℕ
  pub json : Result JsonValue
  pub content_text : Result String

-- The roles of an answer: a JSON list. Other values of `data` are not modelled, and raise here.
abbrev pub roles_of : JsonValue → Result (List JsonValue)
roles_of (arr vs) = ok (items_of vs)
roles_of _ = err type_error

module _ (loads : String → Option JsonValue) where
  -- What `has_rbac_permission` does with an answer that is not a failure.
  unfoldable pub check_response : RbacPermission → Response → Request → Result (Bool × Request)
  check_response sought response request =
      if response.status_code == 200
      then (do
        body ← response.json
        present ← contains_str "data" body
        if not present then ok (false, request) else (do
          listed ← subscript body "data"
          roles ← roles_of listed
          request' ← find_host_groups loads roles request
          find_permission sought roles request'))
      else (do content ← response.content_text; ok (false, request))
