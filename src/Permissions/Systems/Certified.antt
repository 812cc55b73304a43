-- ===== src/Permissions/Systems/Certified.antt =====
-- Which requests `CertAuthPermission` lets through.
use advisor_backend.Common.{
  String, ◌≡◌, refl, subst, Bool, true, false, not, if◌then◌else◌, some, Result, ok, err, ◌>>=◌,
}
use advisor_backend.Json.{JsonValue, null, str, is_obj, contains_str, subscript, get_or}
use advisor_backend.Permissions.Systems.{
  UserRequest, text_or_none, checked_cn, check_system, check_identity, cert_permission,
}

module _ (is_uuid : String → Bool) where
  -- The identity's system has a UUID as its `cn`, and the request keeps it.
  pub record IsSystem (identity : JsonValue) (r' : UserRequest) : Type 0 where
    pub system : JsonValue
    pub has_system : subscript identity "system" ≡ ok system
    pub cn : String
    pub has_cn : subscript system "cn" ≡ ok (str cn)
    pub cn_uuid : is_uuid cn ≡ true
    pub keeps : r'.auth_system ≡ some (str cn)
    pub renames : r'.username ≡ some (str "Certified System")

  -- A refused request is unchanged, and a granted one has a system.
  abbrev Answer : JsonValue → UserRequest → Bool × UserRequest → Type 0
  Answer identity r (true, r') = IsSystem identity r'
  Answer identity r (false, r') = r' ≡ r

  abbrev Answers : JsonValue → UserRequest → Result (Bool × UserRequest) → Type 0
  Answers identity r (ok a) = Answer identity r a
  Answers identity r (err e) = Unit

  checked_cn-Answers :
      (identity system cn : JsonValue) (r : UserRequest)
      → subscript identity "system" ≡ ok system
      → subscript system "cn" ≡ ok cn
      → Answers identity r (checked_cn is_uuid system cn (text_or_none cn) r)
  checked_cn-Answers identity system (str s) r h k =
      go (is_uuid s) refl (get_or system "cert_type" (str "system"))
    where
      go :
          (b : Bool)
          → is_uuid s ≡ b
          → (t : Result JsonValue)
          → Answers identity r (
              if not b
              then ok (false, r)
              else (t >>= λ cert_type. ok (
                true,
                record r {
                  auth_system_type = some cert_type;
                  auth_system = some (str s);
                  username = some (str "Certified System");
                },
              )))
      go true e (ok t) = record {
        system = system;
        has_system = h;
        cn = s;
        has_cn = k;
        cn_uuid = e;
        keeps = refl;
        renames = refl;
      }
      go true e (err x) = tt
      go false e t = refl
  checked_cn-Answers identity _ _ r h k = refl

  if_Answers :
      (identity : JsonValue) (r : UserRequest) (b : Bool) (m : Result (Bool × UserRequest))
      → Answers identity r m
      → Answers identity r (if not b then ok (false, r) else m)
  if_Answers identity r true m h = h
  if_Answers identity r false m h = refl

  bind-Answers :
      {A : Type 0} (identity : JsonValue) (r : UserRequest) (m : Result A)
      (f : A → Result (Bool × UserRequest))
      → ((a : A) → m ≡ ok a → Answers identity r (f a))
      → Answers identity r (m >>= f)
  bind-Answers identity r (ok a) f h = h a refl
  bind-Answers identity r (err e) f h = tt

  check_system-Answers :
      (identity system : JsonValue) (r : UserRequest)
      → subscript identity "system" ≡ ok system
      → Answers identity r (check_system is_uuid system r)
  unfolding check_system
  check_system-Answers identity system r h = if_Answers identity r (is_obj system) _ (
      bind-Answers identity r (contains_str "cn" system) _ λ present _.
        if_Answers identity r present _ (
          bind-Answers identity r (subscript system "cn") _
            λ cn k. checked_cn-Answers identity system cn r h k))

  check_identity-Answers :
      (identity : JsonValue) (r : UserRequest)
      → Answers identity r (check_identity is_uuid identity r)
  unfolding check_identity
  check_identity-Answers identity r =
      bind-Answers identity r (contains_str "system" identity) _ λ present _.
        if_Answers identity r present _ (
          bind-Answers identity r (subscript identity "system") _
            λ system h. check_system-Answers identity system r h)

  cert_permission-Answers :
      (identity : JsonValue) (r : UserRequest)
      → Answers identity r (cert_permission is_uuid identity r)
  unfolding cert_permission
  cert_permission-Answers null r = refl
  cert_permission-Answers identity r = check_identity-Answers identity r

  -- `CertAuthPermission` lets a request through only where its identity, of whatever type, has a section
  -- `system` whose `cn` is the text of a UUID, and the request then keeps this `cn` and the name of a
  -- certified system.
  pub cert_permission-IsSystem :
      (identity : JsonValue) (r r' : UserRequest)
      → cert_permission is_uuid identity r ≡ ok (true, r')
      → IsSystem identity r'
  cert_permission-IsSystem identity r r' h =
      subst (Answers identity r) h (cert_permission-Answers identity r)
