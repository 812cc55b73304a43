-- ===== src/Permissions/Insights/Identified.antt =====
-- What a granted `InsightsRBACPermission` shows.
use advisor_backend.Common.{
  String, ◌≡◌, refl, ap, sym, ◌∙◌, ◌⊎◌, inl, inr, Bool, true, false, not, if◌then◌else◌, Option,
  none, List, Result, ok, ◌>>=◌, >>=-eq-ok, ok-injective, ◌==◌, string_eq,
}
use advisor_backend.Json.{JsonValue, str, is_obj, contains_str, subscript, truthy}
use advisor_backend.Permissions.Permission.{RbacPermission, parse_permission}
use advisor_backend.Permissions.Systems.{UserRequest, request_to_user_data}
use advisor_backend.Permissions.Insights.{
  View, ResourceScope, Access, get_resource, permission_for, is_text, is_identified, auth_of,
  decide, kessel_permission, rbac_permission, has_permission, Answer, is_granted, groups_of, org,
  workspace, host,
}

-- The identity is a dict with an organisation, and the request's user has a text for a name.
pub record IsIdentified (identity : JsonValue) (r : UserRequest) : Type 0 where
  pub structure : is_obj identity ≡ true
  pub has_org : contains_str "org_id" identity ≡ ok true
  pub user_data : JsonValue
  pub has_user : request_to_user_data r ≡ ok user_data
  pub username : JsonValue
  pub has_name : subscript user_data "username" ≡ ok username
  pub name_text : is_text username ≡ true

require_both :
    (b : Bool) (m : Result Bool)
    → (if not b then ok false else m) ≡ ok true
    → (b ≡ true) × (m ≡ ok true)
require_both true m h = (refl, h)
require_both false m h = cc

is_identified-IsIdentified :
    (identity : JsonValue) (r : UserRequest)
    → is_identified identity r ≡ ok true
    → IsIdentified identity r
unfolding is_identified
is_identified-IsIdentified identity r h =
    let (structure, h₁) = require_both (is_obj identity) _ h in
    let (has_org, found_org, h₂) = >>=-eq-ok (contains_str "org_id" identity) _ h₁ in
    let (is_org, h₃) = require_both has_org _ h₂ in
    let (user_data, has_user, h₄) = >>=-eq-ok (request_to_user_data r) _ h₃ in
    let (_, h₅) = require_both (truthy user_data) _ h₄ in
    let (named, _, h₆) = >>=-eq-ok (contains_str "username" user_data) _ h₅ in
    let (_, h₇) = require_both named _ h₆ in
    let (username, has_name, h₈) = >>=-eq-ok (subscript user_data "username") _ h₇ in
    record {
      structure = structure;
      has_org = found_org ∙ ap ok is_org;
      user_data = user_data;
      has_user = has_user;
      username = username;
      has_name = has_name;
      name_text = ok-injective h₈;
    }

module _ (access : Access) where
  abbrev Decision : Type 0
  Decision = Result (Bool × Option (List JsonValue))

  -- The request's user has a `user_id`.
  abbrev pub HasUserId : UserRequest → Type 0
  HasUserId r =
      (user_data : JsonValue) × (request_to_user_data r ≡ ok user_data)
      × (contains_str "user_id" user_data ≡ ok true)

  -- What is shown with Kessel: for a host the `user_id` only, else also that Kessel grants the permission.
  abbrev pub IsKnown : ResourceScope → String → UserRequest → Option (List JsonValue) → Type 0
  IsKnown host permission r groups = HasUserId r × (groups ≡ none)
  IsKnown scope permission r groups =
      HasUserId r
      × ((p : RbacPermission) × (answer : Answer) × (parse_permission (str permission) ≡ ok p)
          × (access.check_kessel scope p r ≡ ok answer)
          × (is_granted answer ≡ true)
          × (groups ≡ groups_of answer))

  -- By the settings: nothing is checked, the checks with Kessel passed, or RBAC has granted.
  abbrev pub IsAllowed : ResourceScope → String → UserRequest → Option (List JsonValue) → Type 0
  IsAllowed scope permission r groups =
      ((access.rbac_enabled ≡ false) × (groups ≡ none))
      ⊎ (((access.rbac_enabled ≡ true)
            × (access.kessel_enabled ≡ true)
            × IsKnown scope permission r groups)
          ⊎ ((access.rbac_enabled ≡ true)
              × (access.kessel_enabled ≡ false)
              × (access.check_rbac permission r ≡ ok true)
              × (groups ≡ none)))

  same_groups :
      {b : Bool} {groups groups' : Option (List JsonValue)}
      → ◌≡◌ {A = Decision} (ok (b, groups')) (ok (true, groups))
      → (b ≡ true) × (groups ≡ groups')
  same_groups e = (
    ap (λ (t : Bool × Option (List JsonValue)). t.0) (ok-injective e),
    sym (ap (λ (t : Bool × Option (List JsonValue)). t.1) (ok-injective e)),
  )

  granted_by_kessel :
      (scope : ResourceScope) (permission : String) (r : UserRequest)
      (groups : Option (List JsonValue)) (identified : Bool)
      → if◌then◌else◌ {A = Decision} (not identified) (ok (false, none)) (do
        p ← parse_permission (str permission)
        answer ← access.check_kessel scope p r
        ok (is_granted answer, groups_of answer))
        ≡ ok (true, groups)
      → (identified ≡ true)
        × ((p : RbacPermission) × (answer : Answer) × (parse_permission (str permission) ≡ ok p)
            × (access.check_kessel scope p r ≡ ok answer)
            × (is_granted answer ≡ true)
            × (groups ≡ groups_of answer))
  granted_by_kessel scope permission r groups false h = cc (same_groups h).0
  granted_by_kessel scope permission r groups true h =
      let (p, parses, h₁) = >>=-eq-ok (parse_permission (str permission)) _ h in
      let (answer, asked, h₂) = >>=-eq-ok (access.check_kessel scope p r) _ h₁ in
      let (granted, same) = same_groups h₂ in (refl, (p, answer, parses, asked, granted, same))

  kessel_permission-IsKnown :
      (scope : ResourceScope) (permission : String) (r : UserRequest)
      (groups : Option (List JsonValue))
      → kessel_permission access scope permission r ≡ ok (true, groups)
      → IsKnown scope permission r groups
  unfolding kessel_permission
  kessel_permission-IsKnown host permission r groups h =
      let (user_data, has_user, h₁) = >>=-eq-ok (request_to_user_data r) _ h in
      let (identified, found, h₂) = >>=-eq-ok (contains_str "user_id" user_data) _ h₁ in
      let (is_yes, same) = same_groups h₂ in ((user_data, has_user, found ∙ ap ok is_yes), same)
  kessel_permission-IsKnown org permission r groups h =
      let (user_data, has_user, h₁) = >>=-eq-ok (request_to_user_data r) _ h in
      let (identified, found, h₂) = >>=-eq-ok (contains_str "user_id" user_data) _ h₁ in
      let (is_yes, known) = granted_by_kessel org permission r groups identified h₂ in
      ((user_data, has_user, found ∙ ap ok is_yes), known)
  kessel_permission-IsKnown workspace permission r groups h =
      let (user_data, has_user, h₁) = >>=-eq-ok (request_to_user_data r) _ h in
      let (identified, found, h₂) = >>=-eq-ok (contains_str "user_id" user_data) _ h₁ in
      let (is_yes, known) = granted_by_kessel workspace permission r groups identified h₂ in
      ((user_data, has_user, found ∙ ap ok is_yes), known)

  decide-IsAllowed :
      (scope : ResourceScope) (permission : String) (r : UserRequest) (identified : Bool)
      (groups : Option (List JsonValue))
      → decide access scope permission r identified ≡ ok (true, groups)
      → (identified ≡ true) × IsAllowed scope permission r groups
  decide-IsAllowed scope permission r false groups h = absurd (refused h)
    where
      refused : ◌≡◌ {A = Decision} (ok (false, none)) (ok (true, groups)) → ⊥
      refused e = cc (ap (λ (t : Bool × Option (List JsonValue)). t.0) (ok-injective e))
  decide-IsAllowed scope permission r true groups h =
      (refl, go access.rbac_enabled access.kessel_enabled refl refl h)
    where
      go :
          (rbac kessel : Bool)
          → access.rbac_enabled ≡ rbac
          → access.kessel_enabled ≡ kessel
          → (if not rbac
              then ok (true, none)
              else if kessel
              then kessel_permission access scope permission r
              else rbac_permission access permission r)
            ≡ ok (true, groups)
          → IsAllowed scope permission r groups
      go false kessel e f k = inl (e, (same_groups k).1)
      go true true e f k = inr (inl (e, f, kessel_permission-IsKnown scope permission r groups k))
      go true false e f k =
          let (granted, checked, rest) = >>=-eq-ok (access.check_rbac permission r) _ k in
          let (is_yes, same) = same_groups rest in inr (inr (e, f, checked ∙ ap ok is_yes, same))

  pub record Passed (app : String) (v : View) (method : String) (r : UserRequest)
      (groups : Option (List JsonValue)) : Type 0 where
    pub resource : String
    pub scope : ResourceScope
    pub has_resource : get_resource v ≡ ok (resource, scope)
    pub not_denied : (resource == "denied") ≡ false
    pub identified : IsIdentified (auth_of access r.auth) r
    pub allowed : IsAllowed scope (permission_for app resource method) r groups

  pub has_permission-Passed :
      (app : String) (v : View) (authenticated : Bool) (method : String) (r : UserRequest)
      (groups : Option (List JsonValue))
      → has_permission access app v authenticated method r ≡ ok (true, groups)
      → (authenticated ≡ true) × Passed app v method r groups
  unfolding has_permission
  has_permission-Passed app v authenticated method r groups h =
      let (found, has_resource, h₁) = >>=-eq-ok (get_resource v) _ h in
      go found has_resource (found.0 == "denied") refl authenticated h₁
    where
      refused : ◌≡◌ {A = Decision} (ok (false, none)) (ok (true, groups)) → ⊥
      refused e = cc (ap (λ (t : Bool × Option (List JsonValue)). t.0) (ok-injective e))

      go :
          (found : String × ResourceScope)
          → get_resource v ≡ ok found
          → (denied : Bool) → (found.0 == "denied") ≡ denied
          → (authenticated : Bool)
          → (if denied
              then ok (false, none)
              else if not authenticated
              then ok (false, none)
              else (is_identified (auth_of access r.auth) r
                  >>= decide access found.1 (permission_for app found.0 method) r))
            ≡ ok (true, groups)
          → (authenticated ≡ true) × Passed app v method r groups
      go found has_resource true e a k = absurd (refused k)
      go found has_resource false e false k = absurd (refused k)
      go found has_resource false e true k =
          let (identified, checked, rest) =
            >>=-eq-ok (is_identified (auth_of access r.auth) r) _ k in
          let (yes_identified, allowed) = decide-IsAllowed found.1 _ r identified groups rest in
          (
            refl,
            record {
              resource = found.0;
              scope = found.1;
              has_resource = has_resource;
              not_denied = e;
              identified = is_identified-IsIdentified _ r (checked ∙ ap ok yes_identified);
              allowed = allowed;
            },
          )
