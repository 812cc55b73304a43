-- ===== src/Permissions/Samples.antt =====
-- Runs of the authentication and of the view permissions on concrete requests.
use Prim.Native.String.{◌++◌}
use advisor_backend.Common.{
  String, ◌≡◌, ◌≢◌, refl, Bool, true, false, Option, none, some, List, [], ◌∷◌, Result, ok, err,
  ◌==◌, string_eq, ok-injective, ◌⊎◌, ◌↔◌, any, authentication_failed,
}
use advisor_backend.Common.Dict.{lookup, put}
use advisor_backend.Json.{JsonValue, ℤ, null, bool, num, pos, str, obj, end, field}
use advisor_backend.Permissions.Identity.{
  AuthRequest, identity_section, identity_header, org_of, associate_of, admit, authenticate,
  authenticate_associate, check_key, authenticate_psk,
}
use advisor_backend.Permissions.Identity.Caching.{IsProper, authenticate-IsProper}
use advisor_backend.Permissions.Identity.Keys.{authenticated_key}
use advisor_backend.Permissions.Views.{
  AllowedView, view, view_method, add_view, view_methods, view_methods_dict, view_allowed,
  has_red_hat_permission_for, is_internal,
}
use advisor_backend.Permissions.Views.Allowed.{
  lists, view_allowed-lists, IsInternalUser, granted_IsInternalUser,
}
use advisor_backend.Permissions.Systems.{
  UserRequest, check_system, check_identity, cert_permission, request_to_user_data,
  request_to_username,
}
use advisor_backend.Permissions.Systems.Certified.{IsSystem, cert_permission-IsSystem}
use advisor_backend.Permissions.Insights.{
  Access, View, org, decision, get_resource, is_identified, has_permission,
}
use advisor_backend.Permissions.Insights.Identified.{Passed, has_permission-Passed}

abbrev user : JsonValue
user = obj (field "is_internal" (bool true) end)

abbrev identity : JsonValue
identity = obj (field "org_id" (num (pos 7)) (field "type" (str "User") (field "user" user end)))

-- Every header stands for the identity, and every number for 7.
abbrev decode : String → Option JsonValue
decode s = some (obj (field "identity" identity end))

abbrev show : ℤ → String
show z = "7"

abbrev request : AuthRequest
request = record {
  header = some "e30=";
  rh_identity = none;
  org_id = none;
  account = null;
  tp_associate = none;
}

abbrev admitted : AuthRequest
admitted = record request { rh_identity = some identity; org_id = some (str "7") }

authenticates : authenticate decode show request ≡ (ok (str "7", identity), admitted)
unfolding authenticate identity_header identity_section admit org_of
authenticates = refl

no_associate : (authenticate_associate decode show request).0 ≡ err authentication_failed
unfolding authenticate_associate identity_header identity_section associate_of
no_associate = refl

authenticate-IsProper_example :
    IsProper decode show identity (str "7")
    × (admitted.org_id ≡ some (str "7"))
    × (admitted.rh_identity ≡ some identity)
    × (authenticate decode show admitted ≡ (ok (str "7", identity), admitted))
authenticate-IsProper_example =
    authenticate-IsProper decode show request admitted (str "7") identity refl authenticates

abbrev compare_digest : String → String → Result Bool
compare_digest s t = ok (s == t)

compare_digest_sound : (s t : String) → compare_digest s t ≡ ok true → s ≡ t
compare_digest_sound s t h = (string_eq.same_iff s t).0 (ok-injective h)

abbrev secret : String
secret = "secret"

abbrev sent : String
sent = "PSK secret"

key_checked : authenticate_psk compare_digest secret sent ≡ ok true
unfolding authenticate_psk check_key
key_checked = refl

wrong_key : authenticate_psk compare_digest "secret" "PSK other" ≡ err authentication_failed
unfolding authenticate_psk check_key
wrong_key = refl

authenticated_key_example :
    ((secret ≡ "") × (true ≡ false)) ⊎ ((secret ≢ "") × (true ≡ true) × (sent ≡ "PSK " ++ secret))
authenticated_key_example =
    authenticated_key compare_digest compare_digest_sound secret sent true key_checked

abbrev allowed : List AllowedView
allowed = view "Stats" ∷ view_method "Settings" "POST" ∷ view_method "Stats" "PUT" ∷ []

view_allowed-lists_example :
    (view_allowed allowed "Stats" "PUT" ≡ true)
    ↔ ((allowed ≡ []) ⊎ (any (lists "Stats" "PUT") allowed ≡ true))
view_allowed-lists_example = view_allowed-lists allowed "Stats" "PUT"

no_post : view_allowed allowed "Stats" "POST" ≡ false
unfolding view_allowed view_methods_dict view_methods add_view lookup put
no_post = refl

internal_passes :
    has_red_hat_permission_for is_internal allowed (some identity) "Stats" "GET" ≡ ok true
unfolding has_red_hat_permission_for is_internal view_allowed view_methods_dict view_methods
    add_view lookup put
internal_passes = refl

granted_IsInternalUser_example :
    (view_allowed allowed "Stats" "GET" ≡ true)
    × ((i : JsonValue) × (some identity ≡ some i) × IsInternalUser i)
granted_IsInternalUser_example =
    granted_IsInternalUser allowed (some identity) "Stats" "GET" internal_passes

abbrev asks : UserRequest
asks = record { auth = some identity; username = none; auth_system = none; auth_system_type = none }

-- A user's request gets its name from its details.
user_named :
    request_to_username (record asks {
      auth = some (
          obj (
            field "type" (str "User") (field "user" (obj (field "username" (str "pat") end)) end)));
    })
    ≡ ok (
      str "pat",
      record asks {
        auth = some (
            obj (
              field "type"
                (str "User")
                (field "user" (obj (field "username" (str "pat") end)) end)));
        username = some (str "pat");
      },
    )
unfolding request_to_username request_to_user_data
user_named = refl

abbrev is_uuid : String → Bool
is_uuid s = s == "a uuid"

abbrev certificate : JsonValue
certificate = obj (field "system" (obj (field "cn" (str "a uuid") end)) end)

abbrev certified : UserRequest
certified = record asks {
  username = some (str "Certified System");
  auth_system = some (str "a uuid");
  auth_system_type = some (str "system");
}

certifies : cert_permission is_uuid certificate asks ≡ ok (true, certified)
unfolding cert_permission check_identity check_system
certifies = refl

cert_permission-IsSystem_example : IsSystem is_uuid certificate certified
cert_permission-IsSystem_example =
    cert_permission-IsSystem is_uuid certificate asks certified certifies

abbrev access : Access
access = record {
  rbac_enabled = true;
  kessel_enabled = false;
  check_rbac = λ permission r. ok (permission == "advisor:acks:write");
  check_kessel = λ scope p r. ok (decision false);
}

abbrev acks_view : View
acks_view = record {
  resource_name = none;
  basename = some "ack";
  resource_scope = none;
  method_resource_name = none;
  method_resource_scope = some org;
}

abbrev named : UserRequest
named = record asks {
  auth = some (
      obj (
        field "org_id" (str "7")
          (field "type" (str "User") (field "user" (obj (field "username" (str "pat") end)) end))));
}

post_granted : has_permission access "advisor" acks_view true "POST" named ≡ ok (true, none)
unfolding has_permission get_resource is_identified request_to_user_data
post_granted = refl

get_refused : has_permission access "advisor" acks_view true "GET" named ≡ ok (false, none)
unfolding has_permission get_resource is_identified request_to_user_data
get_refused = refl

has_permission-Passed_example : (true ≡ true) × Passed access "advisor" acks_view "POST" named none
has_permission-Passed_example =
    has_permission-Passed access "advisor" acks_view true "POST" named none post_granted
