-- ===== src/Permissions/Insights.antt =====
-- `InsightsRBACPermission` of api/advisor/api/permissions.py. The messages and times set on the request
-- are left out.
pub mod Identified
use Prim.Native.Char.{Char, code}
use Prim.Native.String.{◌++◌}
use advisor_backend.Common.{
  ℕ, String, Bool, true, false, not, ◌&&◌, if◌then◌else◌, Option, none, some, List, [], ◌∷◌,
  contains, ◌==◌, nat_eq, string_eq, Result, ok, err, index_error, other_error, ◌>>=◌,
}
use advisor_backend.Json.{JsonValue, null, str, contains_str, subscript, is_obj, truthy}
use advisor_backend.Permissions.Permission.{RbacPermission, parse_permission}
use advisor_backend.Permissions.Systems.{UserRequest, request_to_user_data}

pub data ResourceScope : Type 0 where
  org workspace host : ResourceScope

-- A view and the method that its action names, each with what `set_resource` or its class set.
pub record View : Type 0 where
  pub resource_name : Option String
  pub basename : Option String
  pub resource_scope : Option ResourceScope
  pub method_resource_name : Option String
  pub method_resource_scope : Option ResourceScope

abbrev last_char : ℕ → String → ℕ
last_char n String.[] = n
last_char n (String.◌∷◌ c s) = last_char (code c) s

-- basename + ('' if basename[-1] == 's' else 's')
abbrev pub plural : String → Result String
plural String.[] = err index_error
plural (String.◌∷◌ c s) =
    ok (if last_char (code c) s == 115 then String.◌∷◌ c s else String.◌∷◌ c s ++ "s")

abbrev pub class_resource : Option String → Option String → Result String
class_resource (some name) basename = ok name
class_resource none (some basename) = plural basename
class_resource none none = err other_error

abbrev pub some_or {ℓ} : {A : Type ℓ} → Option A → A → A
some_or none d = d
some_or (some a) d = a

-- _get_resource; a resource that cannot be determined is an AssertionError
unfoldable pub get_resource : View → Result (String × ResourceScope)
get_resource v = do
  resource ← class_resource v.resource_name v.basename
  ok (
    some_or v.method_resource_name resource,
    some_or v.method_resource_scope (some_or v.resource_scope workspace),
  )

abbrev pub action_of : String → String
action_of method = if contains method ("GET" ∷ "HEAD" ∷ "OPTIONS" ∷ []) then "read" else "write"

-- f'{self.app}:{resource}:{action}'
abbrev pub permission_for : (app resource method : String) → String
permission_for app resource method = app ++ ":" ++ resource ++ ":" ++ action_of method

abbrev pub is_text : JsonValue → Bool
is_text (str s) = true
is_text _ = false

-- The checks of `request.auth` and of the user's data.
unfoldable pub is_identified : JsonValue → UserRequest → Result Bool
is_identified identity r = if not (is_obj identity) then ok false else (do
  has_org ← contains_str "org_id" identity
  if not has_org then ok false else (do
    user_data ← request_to_user_data r
    if not (truthy user_data) then ok false else (do
      named ← contains_str "username" user_data
      if not named
          then ok false
          else (do username ← subscript user_data "username"; ok (is_text username)))))

-- What Kessel answers: a decision, or the workspaces that the user may see.
pub data Answer : Type 0 where
  decision : Bool → Answer
  workspaces : List JsonValue → Answer

abbrev pub is_granted : Answer → Bool
is_granted (decision b) = b
is_granted (workspaces []) = false
is_granted (workspaces (w ∷ ws)) = true

-- The host groups that the answer sets on the request.
abbrev pub groups_of : Answer → Option (List JsonValue)
groups_of (decision b) = none
groups_of (workspaces ws) = some ws

-- The settings, and the two services: `check_rbac` is `has_rbac_permission`, `check_kessel`
-- `has_kessel_permission`.
pub record Access : Type 0 where
  pub rbac_enabled : Bool
  pub kessel_enabled : Bool
  pub check_rbac : String → UserRequest → Result Bool
  pub check_kessel : ResourceScope → RbacPermission → UserRequest → Result Answer

module _ (access : Access) where
  open access use {rbac_enabled, kessel_enabled, check_rbac, check_kessel}

  -- With Kessel: the check for a host is left to `has_object_permission`.
  unfoldable pub kessel_permission :
      ResourceScope → String → UserRequest → Result (Bool × Option (List JsonValue))
  kessel_permission host permission r = do
    user_data ← request_to_user_data r
    identified ← contains_str "user_id" user_data
    ok (identified, none)
  kessel_permission scope permission r = do
    user_data ← request_to_user_data r
    identified ← contains_str "user_id" user_data
    if not identified then ok (false, none) else (do
      p ← parse_permission (str permission)
      answer ← check_kessel scope p r
      ok (is_granted answer, groups_of answer))

  abbrev pub rbac_permission : String → UserRequest → Result (Bool × Option (List JsonValue))
  rbac_permission permission r = do granted ← check_rbac permission r; ok (granted, none)

  abbrev pub decide :
      ResourceScope → String → UserRequest → Bool → Result (Bool × Option (List JsonValue))
  decide scope permission r identified =
      if not identified
      then ok (false, none)
      else if not rbac_enabled
      then ok (true, none)
      else if kessel_enabled
      then kessel_permission scope permission r
      else rbac_permission permission r

  abbrev pub auth_of : Option JsonValue → JsonValue
  auth_of none = null
  auth_of (some identity) = identity

  -- InsightsRBACPermission.has_permission: its answer, and the host groups that it sets. `authenticated`
  -- says whether the request has its user and its `auth`.
  unfoldable pub has_permission :
      (app : String)
      → View
      → (authenticated : Bool) → (method : String) → UserRequest
      → Result (Bool × Option (List JsonValue))
  has_permission app v authenticated method r = get_resource v >>= λ found.
      if found.0 == "denied"
      then ok (false, none)
      else if not authenticated
      then ok (false, none)
      else (is_identified (auth_of r.auth) r
          >>= decide found.1 (permission_for app found.0 method) r)

-- InsightsRBACPermission.has_object_permission, for an object's `id`; `flag_enabled` is the feature
-- flag of Kessel, and `check_host` is `has_kessel_permission` for a host.
unfoldable pub has_object_permission :
    (flag_enabled : Bool)
    → (check_host : RbacPermission → JsonValue → Result Bool) → (app : String) → View
    → (method : String) → (id : Option JsonValue) → Result Bool
has_object_permission flag_enabled check_host app v method id =
    if not flag_enabled
    then ok true
    else (get_resource v >>= λ found. elim found.1 [
      | host ↦ elim id [
        | none ↦ ok false
        | some i ↦ do p ← parse_permission (str (permission_for app found.0 method)); check_host p i
      ]
      | _ ↦ ok true
    ])
