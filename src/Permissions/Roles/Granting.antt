-- ===== src/Permissions/Roles/Granting.antt =====
-- What the user's roles grant.
use advisor_backend.Common.{
  ◌≡◌, refl, sym, ap, Bool, true, false, Option, none, some, List, [], ◌∷◌, arith, string_eq,
  if◌then◌else◌, Result, ok, err, value_error, ok-injective, >>=-eq-ok, ◌>>=◌, ◌↔◌, inl, inr,
  Bool-cases, not, subst,
}
use mathlib.Core.Option.{some-injective}
use advisor_backend.Json.{JsonValue, str, contains_str, subscript}
use advisor_backend.Permissions.Permission.{
  RbacPermission, parse_permission, same_permission, includes,
}
use advisor_backend.Permissions.Permission.Inclusion.{IsParsed, includes_trans}
use advisor_backend.Permissions.Permission.Parsing.{parse-IsSplit}
use advisor_backend.Permissions.HostGroups.{Request}
use advisor_backend.Permissions.Roles.{caught, permission_of, matched, find_permission}

-- Some role's permission includes the sought one, and nothing raises in front of it.
pub data Grants : RbacPermission → List JsonValue → Type 0 where
  here :
      {sought p : RbacPermission} {role : JsonValue} {roles : List JsonValue}
      → permission_of role ≡ ok (some p)
      → includes p sought ≡ true
      → Grants sought (role ∷ roles)
  later :
      {sought : RbacPermission} {o : Option RbacPermission} {role : JsonValue}
      {roles : List JsonValue}
      → permission_of role ≡ ok o
      → Grants sought roles
      → Grants sought (role ∷ roles)

same-includes : (p q : RbacPermission) → same_permission p q ≡ true → includes p q ≡ true
unfolding includes
same-includes p q h = rw h refl

abbrev Succeeds : Result (Bool × Request) → Type 0
Succeeds result = (r : Request) × (result ≡ ok (true, r))

abbrev answer :
    RbacPermission
    → Request
    → (same wide : Bool) → Result (Bool × Request)
    → Result (Bool × Request)
answer p request same wide rest =
    if same
    then ok (true, matched p "exact" request)
    else if wide
    then ok (true, matched p "contains" request)
    else rest

answer_wide :
    (p : RbacPermission) (request : Request) (same : Bool) (rest : Result (Bool × Request))
    → Succeeds (answer p request same true rest)
answer_wide p request true rest = (matched p "exact" request, refl)
answer_wide p request false rest = (matched p "contains" request, refl)

answer_rest :
    (p : RbacPermission) (request : Request) (same wide : Bool) (rest : Result (Bool × Request))
    → Succeeds rest
    → Succeeds (answer p request same wide rest)
answer_rest p request true wide rest h = (matched p "exact" request, refl)
answer_rest p request false true rest h = (matched p "contains" request, refl)
answer_rest p request false false rest h = h

find-Grants :
    (sought : RbacPermission) (roles : List JsonValue) (request r : Request)
    → find_permission sought roles request ≡ ok (true, r)
    → Grants sought roles
unfolding find_permission
find-Grants sought [] request r h = cc
find-Grants sought (role ∷ roles) request r h =
    let (o, gives, rest) = >>=-eq-ok (permission_of role) _ h in
    go o gives rest (find-Grants sought roles request r)
  where
    go :
        (o : Option RbacPermission)
        → permission_of role ≡ ok o
        → elim o [
          | none ↦ find_permission sought roles request
          | some p ↦
              answer p request
                (same_permission p sought)
                (includes p sought)
                (find_permission sought roles request)
        ]
          ≡ ok (true, r)
        → (find_permission sought roles request ≡ ok (true, r) → Grants sought roles)
        → Grants sought (role ∷ roles)
    go none gives rest ih = later gives (ih rest)
    go (some p) gives rest ih = elim (Bool-cases (includes p sought)) [
      | inl wide ↦ here gives wide
      | inr not_wide ↦ elim (Bool-cases (same_permission p sought)) [
        | inl same ↦ here gives (same-includes p sought same)
        | inr other ↦ later gives (ih (ground arith))
      ]
    ]

Grants-find :
    (sought : RbacPermission) (roles : List JsonValue) (request : Request)
    → Grants sought roles
    → Succeeds (find_permission sought roles request)
unfolding find_permission
Grants-find sought [] request g = elim g [ ]
Grants-find sought (role ∷ roles) request (here {p = p} gives wide) = rw gives (
    rw wide
      (answer_wide p request (same_permission p sought) (find_permission sought roles request)))
Grants-find sought (role ∷ roles) request (later {o = o} gives g) =
    rw gives (go o (Grants-find sought roles request g))
  where
    go :
        (o : Option RbacPermission)
        → Succeeds (find_permission sought roles request)
        → Succeeds (elim o [
          | none ↦ find_permission sought roles request
          | some p ↦
              answer p request
                (same_permission p sought)
                (includes p sought)
                (find_permission sought roles request)
        ])
    go none ih = ih
    go (some p) ih = answer_rest p request (same_permission p sought) (includes p sought) _ ih

-- The roles grant a permission exactly where one of them has a permission that includes it and nothing
-- raises in front of that role.
pub find_permission-Grants :
    (sought : RbacPermission) (roles : List JsonValue) (request : Request)
    → ((r : Request) × (find_permission sought roles request ≡ ok (true, r))) ↔ Grants sought roles
find_permission-Grants sought roles request =
    (λ (r, h). find-Grants sought roles request r h, Grants-find sought roles request)

text_IsParsed : (v : JsonValue) (p : RbacPermission) → parse_permission v ≡ ok p → IsParsed p
unfolding parse_permission
text_IsParsed (str s) p h =
    subst (λ t. parse_permission (str t) ≡ ok p) (sym ((parse-IsSplit s p).0 h).string) h
text_IsParsed _ p h = cc

permission_IsParsed :
    (role : JsonValue) (p : RbacPermission) → permission_of role ≡ ok (some p) → IsParsed p
unfolding permission_of
permission_IsParsed role p h =
    let (present, _, rest) = >>=-eq-ok (contains_str "permission" role) _ h in go present rest
  where
    caught-eq : (r : Result RbacPermission) → caught r ≡ ok (some p) → r ≡ ok p
    caught-eq (ok q) e = ap ok (some-injective _ _ (ok-injective e))
    caught-eq (err value_error) e = cc
    caught-eq (err _) e = cc

    go :
        (present : Bool)
        → (if not present
            then ok none
            else (subscript role "permission" >>= λ v. caught (parse_permission v)))
          ≡ ok (some p)
        → IsParsed p
    go true e =
        let (v, _, rest) = >>=-eq-ok (subscript role "permission") _ e in
        text_IsParsed v p (caught-eq (parse_permission v) rest)
    go false e = cc

Grants-includes :
    (q sought : RbacPermission) (roles : List JsonValue)
    → IsParsed q
    → IsParsed sought
    → includes q sought ≡ true
    → Grants q roles
    → Grants sought roles
Grants-includes q sought roles hq hs wide (here {p = p} gives covers) =
    here gives (includes_trans p q sought (permission_IsParsed _ p gives) hq hs covers wide)
Grants-includes q sought roles hq hs wide (later gives g) =
    later gives (Grants-includes q sought _ hq hs wide g)

-- Roles that grant a permission grant each permission that it includes: who may write may read.
pub granted-includes :
    (q sought : RbacPermission) (roles : List JsonValue) (request r : Request)
    → IsParsed q
    → IsParsed sought
    → includes q sought ≡ true
    → find_permission q roles request ≡ ok (true, r)
    → (r' : Request) × (find_permission sought roles request ≡ ok (true, r'))
granted-includes q sought roles request r hq hs wide h =
    Grants-find sought roles request
      (Grants-includes q sought roles hq hs wide (find-Grants q roles request r h))
