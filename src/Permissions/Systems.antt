-- ===== src/Permissions/Systems.antt =====
-- `CertAuthPermission` and `request_to_user_data` with the two helpers behind it, of
-- api/advisor/api/permissions.py. The messages set on the request are left out.
pub mod Certified
use advisor_backend.Common.{
  String, Bool, true, false, not, if◌then◌else◌, Option, none, some, List, [], ◌∷◌, contains, ◌==◌,
  string_eq, Result, ok, err, type_error, authentication_failed, ◌>>=◌,
}
use advisor_backend.Json.{
  JsonValue, null, str, arr, obj, end, contains_str, subscript, is_obj, get_or,
}

-- `auth` is `none` where the request has no such attribute; the other fields are set by the checks.
pub record UserRequest : Type 0 where
  pub auth : Option JsonValue
  pub username : Option JsonValue
  pub auth_system : Option JsonValue
  pub auth_system_type : Option JsonValue

abbrev pub text_or_none : JsonValue → Option String
text_or_none (str s) = some s
text_or_none _ = none

-- `is_uuid` says whether `uuid.UUID` accepts a text.
module _ (is_uuid : String → Bool) where
  abbrev pub checked_cn :
      JsonValue → JsonValue → Option String → UserRequest → Result (Bool × UserRequest)
  checked_cn system cn none r = ok (false, r)
  checked_cn system cn (some s) r = if not (is_uuid s) then ok (false, r) else (do
    cert_type ← get_or system "cert_type" (str "system")
    ok (
      true,
      record r {
        auth_system_type = some cert_type;
        auth_system = some cn;
        username = some (str "Certified System");
      },
    ))

  -- The checks on `identity['system']`.
  unfoldable pub check_system : JsonValue → UserRequest → Result (Bool × UserRequest)
  check_system system r = if not (is_obj system) then ok (false, r) else (do
    present ← contains_str "cn" system
    if not present
        then ok (false, r)
        else (do cn ← subscript system "cn"; checked_cn system cn (text_or_none cn) r))

  unfoldable pub check_identity : JsonValue → UserRequest → Result (Bool × UserRequest)
  check_identity identity r = do
    present ← contains_str "system" identity
    if not present
        then ok (false, r)
        else (do system ← subscript identity "system"; check_system system r)

  -- CertAuthPermission.has_permission; `request.auth` is `None` or an identity.
  unfoldable pub cert_permission : JsonValue → UserRequest → Result (Bool × UserRequest)
  cert_permission null r = ok (false, r)
  cert_permission identity r = check_identity identity r

-- user_details_key.get(type), where it is there
abbrev pub user_details_key : JsonValue → Result (Option String)
user_details_key (str s) =
    if s == "User"
    then ok (some "user")
    else if s == "ServiceAccount"
    then ok (some "service_account")
    else ok none
user_details_key (arr vs) = err type_error
user_details_key (obj fs) = err type_error
user_details_key _ = ok none

abbrev pub details_of : JsonValue → Option String → Result JsonValue
details_of identity none = ok (obj end)
details_of identity (some type_key) = do
  present ← contains_str type_key identity
  if not present then ok (obj end) else subscript identity type_key

unfoldable pub request_to_user_data : UserRequest → Result JsonValue
request_to_user_data r = elim r.auth [
  | none ↦ ok (obj end)
  | some identity ↦ contains_str "type" identity >>= λ present.
      if not present then ok (obj end) else (do
        type ← subscript identity "type"
        type_key ← user_details_key type
        details_of identity type_key)
]

abbrev pub username_or : Option JsonValue → Option JsonValue
username_or none = none
username_or (some null) = none
username_or (some v) = some v

unfoldable pub request_to_username : UserRequest → Result (JsonValue × UserRequest)
request_to_username r = elim (username_or r.username) [
  | some username ↦ ok (username, r)
  | none ↦ request_to_user_data r >>= λ user_data. contains_str "username" user_data >>= λ present.
      if not present then err authentication_failed else (do
        username ← subscript user_data "username"
        ok (username, record r { username = some username }))
]

unfoldable pub request_to_org : UserRequest → Result JsonValue
request_to_org r = elim r.auth [
  | none ↦ ok (str "")
  | some identity ↦ contains_str "org_id" identity >>= λ present.
      if not present then ok (str "") else subscript identity "org_id"
]
