-- ===== src/Permissions/Checks.antt =====
-- `has_rbac_permission`, `check_permission` and `identity_to_subject` of api/advisor/api/permissions.py.
-- Logging, the messages set on the request and the times are left out.
pub mod Asked
use Prim.Native.String.{◌++◌}
use advisor_backend.Common.{
  ℕ, String, Bool, true, false, not, ◌&&◌, if◌then◌else◌, Option, none, some, ◌==◌, nat_eq,
  string_eq, Exception, Result, ok, err, value_error, type_error, key_error, other_error, ◌>>=◌, Eq,
}
use advisor_backend.Common.Dict.{Dict, lookup, put}
use advisor_backend.Json.{JsonValue, str, arr, obj, subscript, contains_str, truthy}
use advisor_backend.Permissions.Permission.{RbacPermission, parse_permission}
use advisor_backend.Permissions.HostGroups.{Request}
use advisor_backend.Permissions.Roles.{Response, check_response}
use advisor_backend.Permissions.Systems.{
  UserRequest, request_to_user_data, request_to_username, request_to_org,
}
use advisor_backend.Permissions.Insights.{ResourceScope, org, workspace, host}

abbrev not_failed : Option Response → Option Response
not_failed none = none
not_failed (some response) = if response.status_code == 500 then none else some response

-- `asker` is the request with its user and its `auth`, of which the key of the cache is made; `ask` is
-- `make_rbac_request` with its URL: `none` where RBAC cannot be reached. `cached` is the answer
-- that the cache has for the user, which is on only while the schema is generated; the new value of the
-- cache's entry is the last component.
module _ (loads : String → Option JsonValue) (rbac_enabled : Bool) (rbac_url : String)
    (ask : Request → Option Response) where
  abbrev answered :
      RbacPermission → Bool → Option Response → Request → Result (Bool × Request × Option Response)
  answered sought caching none request = ok (false, request, none)
  answered sought caching (some response) request = do
    result ← check_response loads sought response request
    ok (result.0, result.1, if caching then some response else none)

  unfoldable pub has_rbac_permission :
      (caching : Bool)
      → (cached : Option Response) → (asker : UserRequest) → (permission : String) → Request
      → Result (Bool × Request × Option Response)
  has_rbac_permission caching cached asker permission request =
      if not rbac_enabled
      then ok (true, request, cached)
      else if rbac_url == ""
      then err other_error
      else (parse_permission (str permission) >>= λ sought. request_to_username asker >>= λ named.
          request_to_org named.1 >>= λ org_id. elim cached [
            | some response ↦ answered sought true (some response) request
            | none ↦ answered sought caching (not_failed (ask request)) request
          ])

  -- check_permission, outside of the generation of the schema; `check_kessel` is
  -- `has_kessel_permission`.
  unfoldable pub check_permission :
      (check_kessel : ResourceScope → RbacPermission → Result Bool)
      → (kessel_enabled : Bool) → (asker : UserRequest) → String
      → ResourceScope
      → Request
      → Result Bool
  check_permission check_kessel kessel_enabled asker permission scope request =
      if kessel_enabled
      then elim scope [
        | workspace ↦ err value_error
        | other ↦ do
          user_data ← request_to_user_data asker
          named ← contains_str "user_id" user_data
          if not (truthy user_data && named)
              then ok false
              else (do p ← parse_permission (str permission); check_kessel other p)
      ]
      else if not rbac_enabled
      then ok true
      else (do answer ← has_rbac_permission false none asker permission request; ok answer.0)

abbrev subject_field : JsonValue → Result String
subject_field (str s) =
    if s == "User"
    then ok "user"
    else if s == "ServiceAccount"
    then ok "service_account"
    else err value_error
subject_field (arr vs) = err type_error
subject_field (obj fs) = err type_error
subject_field _ = err value_error

-- identity_to_subject: the name of the principal; `show` is `str`.
unfoldable pub identity_to_subject : (show : JsonValue → String) → JsonValue → Result String
identity_to_subject show identity = do
  type ← subscript identity "type"
  identity_field ← subject_field type
  details ← subscript identity identity_field
  user_id ← subscript details "user_id"
  ok ("redhat/" ++ show user_id)
