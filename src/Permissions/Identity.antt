-- ===== src/Permissions/Identity.antt =====
-- The authentication classes of api/advisor/api/permissions.py. Logging and the texts of the errors
-- are left out.
pub mod Caching
pub mod Keys
use Prim.Native.String.{count, ◌++◌}
use text.Mathlib.Text.{starts_with}
use advisor_backend.Common.{
  ℕ, suc, String, Bool, true, false, not, if◌then◌else◌, Option, none, some, List, [], ◌∷◌, ltb,
  ◌==◌, string_eq, Result, ok, err, type_error, authentication_failed, ◌>>=◌,
}
use advisor_backend.Json.{
  JsonValue, Items, Fields, ℤ, null, bool, num, str, arr, obj, nil, cons, end, field, contains_str,
  subscript, is_obj, is_str,
}

-- What the authentication reads from the request, and what it sets on it. `header` is the value of
-- `HTTP_X_RH_IDENTITY`.
pub record AuthRequest : Type 0 where
  pub header : Option String
  pub rh_identity : Option JsonValue
  pub org_id : Option JsonValue
  pub account : JsonValue
  pub tp_associate : Option JsonValue

abbrev pub require : Bool → Result (Unit {0})
require true = ok tt
require false = err authentication_failed

abbrev pub has_key : String → JsonValue → Result (Unit {0})
has_key k v = contains_str k v >>= require

-- The checks of `get_identity_header` on what the header decodes to.
unfoldable pub identity_section : JsonValue → Result JsonValue
identity_section auth_header = do
  structure ← require (is_obj auth_header)
  present ← has_key "identity" auth_header
  identity ← subscript auth_header "identity"
  inner ← require (is_obj identity)
  ok identity

abbrev pub section_of : Option JsonValue → Result (Option JsonValue)
section_of none = err authentication_failed
section_of (some auth_header) = do identity ← identity_section auth_header; ok (some identity)

abbrev pub count_items : Items → ℕ
count_items nil = 0
count_items (cons v vs) = suc (count_items vs)

abbrev pub count_keys : Fields → ℕ
count_keys end = 0
count_keys (field k v fs) = suc (count_keys fs)

-- len(v)
abbrev pub len : JsonValue → Result ℕ
len (str s) = ok (count s)
len (arr vs) = ok (count_items vs)
len (obj fs) = ok (count_keys fs)
len _ = err type_error

-- `decode` is `json.loads(base64.b64decode(...))`, `none` where that raises, and `show` is `str` on
-- integers.
module _ (decode : String → Option JsonValue) (show : ℤ → String) where
  -- The value that `get_identity_header` returns.
  unfoldable pub identity_header : Option String → Result (Option JsonValue)
  identity_header none = ok none
  identity_header (some header) = section_of (decode header)

  -- str(org_id) if isinstance(org_id, int) else org_id
  abbrev pub org_text : JsonValue → JsonValue
  org_text (num z) = str (show z)
  org_text (bool true) = str "True"
  org_text (bool false) = str "False"
  org_text v = v

  -- The checks of `RHIdentityAuthentication.authenticate` on the identity.
  unfoldable pub org_of : JsonValue → Result JsonValue
  org_of identity = do
    has_org ← has_key "org_id" identity
    org_id ← subscript identity "org_id"
    length ← len (org_text org_id)
    short ← require (not (ltb 50 length))
    has_type ← has_key "type" identity
    ok (org_text org_id)

  abbrev pub or_null : Result JsonValue → JsonValue
  or_null (ok v) = v
  or_null (err e) = null

  abbrev pub with_identity : JsonValue → AuthRequest → AuthRequest
  with_identity identity r = record r { rh_identity = some identity }

  -- What follows `get_identity_header`, which has set `rh_identity`.
  unfoldable pub admit : JsonValue → AuthRequest → Result (JsonValue × JsonValue) × AuthRequest
  admit identity r = elim (org_of identity) [
    | err e ↦ (err e, with_identity identity r)
    | ok org_id ↦ (
      ok (org_id, identity),
      record r {
        rh_identity = some identity;
        org_id = some org_id;
        account = or_null (subscript identity "account_number");
      },
    )
  ]

  abbrev pub after_header :
      Result (Option JsonValue) → AuthRequest → Result (JsonValue × JsonValue) × AuthRequest
  after_header (err e) r = (err e, r)
  after_header (ok none) r = (err authentication_failed, r)
  after_header (ok (some identity)) r = admit identity r

  abbrev pub cached : Option JsonValue → Option JsonValue → Option (JsonValue × JsonValue)
  cached (some identity) (some org_id) = some (org_id, identity)
  cached _ _ = none

  -- RHIdentityAuthentication.authenticate
  unfoldable pub authenticate : AuthRequest → Result (JsonValue × JsonValue) × AuthRequest
  authenticate r = elim (cached r.rh_identity r.org_id) [
    | some found ↦ (ok found, r)
    | none ↦ after_header (identity_header r.header) r
  ]

  -- The checks of `TurnpikeIdentityAuthentication.authenticate` on the identity.
  unfoldable pub associate_of : JsonValue → Result JsonValue
  associate_of identity = do
    has_auth_type ← has_key "auth_type" identity
    auth_type ← subscript identity "auth_type"
    saml ← require (is_str "saml-auth" auth_type)
    has_type ← has_key "type" identity
    type ← subscript identity "type"
    is_associate ← require (is_str "Associate" type)
    has_associate ← has_key "associate" identity
    associate ← subscript identity "associate"
    structure ← require (is_obj associate)
    ok associate

  abbrev pub admit_associate :
      Result (Option JsonValue) → AuthRequest → Result (JsonValue × JsonValue) × AuthRequest
  admit_associate (err e) r = (err e, r)
  admit_associate (ok none) r = (err authentication_failed, r)
  admit_associate (ok (some identity)) r = elim (associate_of identity) [
    | err e ↦ (err e, with_identity identity r)
    | ok associate ↦ (
      ok (associate, identity),
      record r { rh_identity = some identity; tp_associate = some associate },
    )
  ]

  -- TurnpikeIdentityAuthentication.authenticate
  unfoldable pub authenticate_associate : AuthRequest → Result (JsonValue × JsonValue) × AuthRequest
  authenticate_associate r = admit_associate (identity_header r.header) r

-- auth_header[4:]
abbrev pub behind_prefix : String → String
behind_prefix (String.◌∷◌ a (String.◌∷◌ b (String.◌∷◌ c (String.◌∷◌ d s)))) = s
behind_prefix _ = ""

-- What `ImportContentPSKAuthentication.authenticate` checks where a key is set. `compare_digest` is
-- `hmac.compare_digest`, which may raise.
unfoldable pub check_key :
    (compare_digest : String → String → Result Bool) → (psk auth_header : String) → Result Bool
check_key compare_digest psk auth_header = do
  given ← require (not (auth_header == ""))
  prefixed ← require (starts_with auth_header "PSK ")
  same ← compare_digest (behind_prefix auth_header) psk
  right ← require same
  ok true

-- ImportContentPSKAuthentication.authenticate: whether a key was checked. An empty `psk` stands for a
-- setting that is unset too.
unfoldable pub authenticate_psk :
    (compare_digest : String → String → Result Bool) → (psk auth_header : String) → Result Bool
authenticate_psk compare_digest psk auth_header =
    if psk == "" then ok false else check_key compare_digest psk auth_header
