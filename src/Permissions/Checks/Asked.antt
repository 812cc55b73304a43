-- ===== src/Permissions/Checks/Asked.antt =====
-- A permission that RBAC grants was asked for and answered.
use advisor_backend.Common.{
  String, ◌≡◌, refl, ap, ◌∙◌, Bool, true, false, if◌then◌else◌, Option, none, some, ok, err, ◌>>=◌,
  >>=-eq-ok, ok-injective, other_error, ◌==◌, string_eq,
}
use advisor_backend.Json.{JsonValue, str}
use advisor_backend.Permissions.Permission.{RbacPermission, parse_permission}
use advisor_backend.Permissions.HostGroups.{Request}
use advisor_backend.Permissions.Roles.{Response, check_response}
use advisor_backend.Permissions.Systems.{UserRequest, request_to_username, request_to_org}
use advisor_backend.Permissions.Checks.{not_failed, answered, has_rbac_permission}

-- The name of the request's user is found.
abbrev pub HasName : UserRequest → Type 0
HasName asker = (named : JsonValue × UserRequest) × (request_to_username asker ≡ ok named)

module _ (loads : String → Option JsonValue) (rbac_url : String)
    (ask : Request → Option Response) where
  -- RBAC gave the answer that grants the permission.
  pub record IsAnswered (permission : String) (request r : Request) : Type 0 where
    pub sought : RbacPermission
    pub parses : parse_permission (str permission) ≡ ok sought
    pub response : Response
    pub asked : not_failed (ask request) ≡ some response
    pub grants : check_response loads sought response request ≡ ok (true, r)

  -- Where RBAC is on and no answer is cached, `has_rbac_permission` grants a permission only if it is well
  -- formed, the request has a user name, RBAC has answered, not with the status 500, and the answer
  -- grants it.
  pub has_rbac_permission-IsAnswered :
      (caching : Bool) (asker : UserRequest) (permission : String) (request r : Request)
      (kept : Option Response)
      → has_rbac_permission loads true rbac_url ask caching none asker permission request
        ≡ ok (true, r, kept)
      → HasName asker × IsAnswered permission request r
  unfolding has_rbac_permission
  has_rbac_permission-IsAnswered caching asker permission request r kept h =
      with_url (rbac_url == "") h
    where
      from_answer :
          (sought : RbacPermission) (o : Option Response)
          → parse_permission (str permission) ≡ ok sought
          → not_failed (ask request) ≡ o
          → answered loads true rbac_url ask sought caching o request ≡ ok (true, r, kept)
          → IsAnswered permission request r
      from_answer sought none parses asked k =
          cc (ap (λ (t : Bool × Request × Option Response). t.0) (ok-injective k))
      from_answer sought (some response) parses asked k =
          let (result, checked, rest) =
            >>=-eq-ok (check_response loads sought response request) _ k in
          record {
            sought = sought;
            parses = parses;
            response = response;
            asked = asked;
            grants =
                checked
                ∙ ap (λ (t : Bool × Request × Option Response). ok (t.0, t.1)) (ok-injective rest);
          }

      with_url :
          (b : Bool)
          → (if b
              then err other_error
              else (parse_permission (str permission) >>= λ sought.
                  request_to_username asker >>= λ named. request_to_org named.1 >>= λ org_id.
                  answered loads true rbac_url ask sought caching
                    (not_failed (ask request))
                    request))
            ≡ ok (true, r, kept)
          → HasName asker × IsAnswered permission request r
      with_url true k = cc
      with_url false k =
          let (sought, parses, k₁) = >>=-eq-ok (parse_permission (str permission)) _ k in
          let (named, has_name, k₂) = >>=-eq-ok (request_to_username asker) _ k₁ in
          let (org_id, _, rest) = >>=-eq-ok (request_to_org named.1) _ k₂ in
          ((named, has_name), from_answer sought (not_failed (ask request)) parses refl rest)
