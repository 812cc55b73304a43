-- ===== src/Permissions/Identity/Caching.antt =====
-- What `RHIdentityAuthentication` accepts, and that it remembers it.
use advisor_backend.Common.{
  ℕ, ◌≤◌, String, ◌≡◌, refl, sym, ap, ◌∙◌, Bool, true, false, not, arith, Option, none, some, ltb,
  Result, ok, err, >>=-eq-ok, ok-injective, subst,
}
use advisor_backend.Json.{JsonValue, ℤ, contains_str, subscript}
use advisor_backend.Permissions.Identity.{
  AuthRequest, require, has_key, len, identity_header, org_text, org_of, with_identity, admit,
  after_header, cached, authenticate, or_null,
}

module _ (decode : String → Option JsonValue) (show : ℤ → String) where
  -- An identity with an organisation whose `len` is at most 50, and a type.
  pub record IsProper (identity org : JsonValue) : Type 0 where
    pub org_id : JsonValue
    pub has_org_id : subscript identity "org_id" ≡ ok org_id
    pub is_text : org ≡ org_text decode show org_id
    pub length : ℕ
    pub has_length : len org ≡ ok length
    pub short : length ≤ 50
    pub has_type : contains_str "type" identity ≡ ok true

  require-true : (b : Bool) {u : Unit {0}} → require b ≡ ok u → b ≡ true
  require-true true h = refl
  require-true false h = cc

  has_key-true :
      (k : String) (v : JsonValue) {u : Unit {0}} → has_key k v ≡ ok u → contains_str k v ≡ ok true
  has_key-true k v h =
      let (b, found, rest) = >>=-eq-ok (contains_str k v) require h in
      found ∙ ap ok (require-true b rest)

  org_of-IsProper :
      (identity org : JsonValue) → org_of decode show identity ≡ ok org → IsProper identity org
  unfolding org_of
  org_of-IsProper identity org h =
      let (_, _, h₁) = >>=-eq-ok (has_key "org_id" identity) _ h in
      let (org_id, has_org_id, h₂) = >>=-eq-ok (subscript identity "org_id") _ h₁ in
      let (length, has_length, h₃) = >>=-eq-ok (len (org_text decode show org_id)) _ h₂ in
      let (_, short, h₄) = >>=-eq-ok (require (not (ltb 50 length))) _ h₃ in
      let (_, has_type, h₅) = >>=-eq-ok (has_key "type" identity) _ h₄ in
      let same = ok-injective h₅ in
      let fits = require-true (not (ltb 50 length)) short in
      record {
        org_id = org_id;
        has_org_id = has_org_id;
        is_text = sym same;
        length = length;
        has_length = sym (ap len same) ∙ has_length;
        short = ground arith;
        has_type = has_key-true "type" identity has_type;
      }

  -- What a successful authentication leaves on the request.
  abbrev Admitted : Result (JsonValue × JsonValue) × AuthRequest → Type 0
  Admitted (ok (org, identity), r) =
      IsProper identity org
      × (r.org_id ≡ some org)
      × (r.rh_identity ≡ some identity)
      × (authenticate decode show r ≡ (ok (org, identity), r))
  Admitted (err e, r) = Unit

  admit-Admitted :
      (identity : JsonValue) (r : AuthRequest) → Admitted (admit decode show identity r)
  unfolding admit authenticate
  admit-Admitted identity r = go (org_of decode show identity) (org_of-IsProper identity)
    where
      go :
          (o : Result JsonValue)
          → ((org : JsonValue) → o ≡ ok org → IsProper identity org)
          → Admitted (elim o [
            | err e ↦ (err e, with_identity decode show identity r)
            | ok org_id ↦ (
              ok (org_id, identity),
              record r {
                rh_identity = some identity;
                org_id = some org_id;
                account = or_null decode show (subscript identity "account_number");
              },
            )
          ])
      go (ok org) proper = (proper org refl, refl, refl, refl)
      go (err e) proper = tt

  after_header-Admitted :
      (h : Result (Option JsonValue)) (r : AuthRequest) → Admitted (after_header decode show h r)
  after_header-Admitted (err e) r = tt
  after_header-Admitted (ok none) r = tt
  after_header-Admitted (ok (some identity)) r = admit-Admitted identity r

  -- Where a request without an organisation is authenticated, its identity has a type and an `org_id`, the
  -- organisation is its `str` for a number or a Boolean and else itself, and has a `len` of at most 50,
  -- where that of a text counts its characters, that of a list or dict its items. The request then holds the
  -- identity and the organisation, and a second authentication gives them again and changes nothing.
  pub authenticate-IsProper :
      (r r' : AuthRequest) (org identity : JsonValue)
      → r.org_id ≡ none
      → authenticate decode show r ≡ (ok (org, identity), r')
      → IsProper identity org
        × (r'.org_id ≡ some org)
        × (r'.rh_identity ≡ some identity)
        × (authenticate decode show r' ≡ (ok (org, identity), r'))
  unfolding authenticate
  authenticate-IsProper r r' org identity fresh h =
      subst Admitted (go r.rh_identity r.org_id fresh h)
        (after_header-Admitted (identity_header decode show r.header) r)
    where
      go :
          (i o : Option JsonValue)
          → o ≡ none
          → elim (cached decode show i o) [
            | some found ↦ (ok found, r)
            | none ↦ after_header decode show (identity_header decode show r.header) r
          ]
            ≡ (ok (org, identity), r')
          → after_header decode show (identity_header decode show r.header) r
            ≡ (ok (org, identity), r')
      go none none e h = h
      go (some _) none e h = h
      go i (some _) e h = cc
