-- ===== src/Permissions/Views.antt =====
-- The permissions of api/advisor/api/permissions.py that go by views, methods and identities. The
-- messages set on the request are left out. `identity` is `request.auth`, `none` where the request is
-- not authenticated or has none.
pub mod Allowed
use advisor_backend.Common.{
  String, Bool, true, false, not, if◌then◌else◌, Option, none, some, List, [], ◌∷◌, ◌++◌, contains,
  ◌==◌, string_eq, Result, ok, err, ◌>>=◌,
}
use advisor_backend.Common.Dict.{Dict, lookup, put, has_key}
use advisor_backend.Json.{JsonValue, contains_str, subscript, truthy}

-- An entry of `allowed_views`: a view, or a view with a method.
pub data AllowedView : Type 0 where
  view : String → AllowedView
  view_method : String → String → AllowedView

-- rv if isinstance(rv, tuple) else (rv, 'GET')
abbrev pub normal : AllowedView → String × String
normal (view v) = (v, "GET")
normal (view_method v m) = (v, m)

abbrev pub methods_in : Option (List String) → List String
methods_in none = []
methods_in (some methods) = methods

-- One round of the loop of `view_methods_dict`.
unfoldable pub add_view : String × String → Dict String (List String) → Dict String (List String)
add_view (v, method) d =
    let opened = if has_key v d then d else put v [] d in
    put v (methods_in (lookup v opened) ++ method ∷ []) opened

unfoldable pub view_methods :
    List AllowedView → Dict String (List String) → Dict String (List String)
view_methods [] d = d
view_methods (rv ∷ rvs) d = view_methods rvs (add_view (normal rv) d)

unfoldable pub view_methods_dict : List AllowedView → Dict String (List String)
view_methods_dict allowed_views = view_methods allowed_views []

abbrev pub method_listed : String → Option (List String) → Bool
method_listed method none = false
method_listed method (some methods) = contains method methods

-- The check of the view and of the request's method, where `allowed_views` is set.
unfoldable pub view_allowed : List AllowedView → (view_name method : String) → Bool
view_allowed [] view_name method = true
view_allowed (rv ∷ rvs) view_name method =
    method_listed method (lookup view_name (view_methods_dict (rv ∷ rvs)))

-- BaseAssociatePermission.has_permission
unfoldable pub has_associate_permission_for :
    (has_associate_permission : JsonValue → Result Bool)
    → List AllowedView
    → Option JsonValue
    → (view_name method : String) → Result Bool
has_associate_permission_for has_associate_permission allowed_views none view_name method = ok false
has_associate_permission_for has_associate_permission allowed_views (some identity) view_name
      method =
    if view_allowed allowed_views view_name method
    then has_associate_permission identity
    else ok false

-- AssociatePermission.has_associate_permission
abbrev pub has_associate : JsonValue → Result Bool
has_associate identity = contains_str "associate" identity

-- BaseRedHatUserPermission.has_permission
unfoldable pub has_red_hat_permission_for :
    (has_red_hat_permission : JsonValue → Result Bool)
    → List AllowedView
    → Option JsonValue
    → (view_name method : String) → Result Bool
has_red_hat_permission_for has_red_hat_permission allowed_views none view_name method = ok false
has_red_hat_permission_for has_red_hat_permission allowed_views (some identity) view_name method =
    do
      present ← contains_str "user" identity
      if not present
          then ok false
          else if view_allowed allowed_views view_name method
          then (do user_data ← subscript identity "user"; has_red_hat_permission user_data)
          else ok false

-- IsRedHatInternalUser.has_red_hat_permission
unfoldable pub is_internal : JsonValue → Result Bool
is_internal user_data = do
  present ← contains_str "is_internal" user_data
  if not present then ok false else (do flag ← subscript user_data "is_internal"; ok (truthy flag))

-- OrgPermission.has_permission
unfoldable pub has_org : Option JsonValue → Result Bool
has_org none = ok false
has_org (some identity) = contains_str "org_id" identity
