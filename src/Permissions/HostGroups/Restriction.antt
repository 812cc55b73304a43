-- ===== src/Permissions/HostGroups/Restriction.antt =====
-- When `find_host_groups` restricts a request, and to which groups.
use advisor_backend.Common.{
  String, ◌≡◌, refl, sym, ap, subst, ◌∙◌, ◌↔◌, ◌⊎◌, inl, inr, Option, none, some, List, [], ◌∷◌,
  ◌++◌, append_assoc, append-nil, ok, ok-injective, >>=-eq-ok,
}
use mathlib.Core.Option.{some-injective}
use advisor_backend.Json.{JsonValue}
use advisor_backend.Permissions.HostGroups.{
  Found, adds, unrestricted, role_groups, groups_or_unset, collect_groups,
}

module _ (loads : String → Option JsonValue) where
  -- No role of the list is unrestricted, and together they give the groups.
  pub data Restricted : List JsonValue → List JsonValue → Type 0 where
    no_roles : Restricted [] []
    role_adds :
        {role : JsonValue} {roles groups rest : List JsonValue}
        → role_groups loads role ≡ ok (adds groups)
        → Restricted roles rest
        → Restricted (role ∷ roles) (groups ++ rest)

  -- Some role of the list is unrestricted, and nothing raises in front of it.
  pub data ReachesUnrestricted : List JsonValue → Type 0 where
    here :
        {role : JsonValue} {roles : List JsonValue}
        → role_groups loads role ≡ ok unrestricted
        → ReachesUnrestricted (role ∷ roles)
    later :
        {role : JsonValue} {roles groups : List JsonValue}
        → role_groups loads role ≡ ok (adds groups)
        → ReachesUnrestricted roles
        → ReachesUnrestricted (role ∷ roles)

  abbrev Outcome : List JsonValue → List JsonValue → Option (List JsonValue) → Type 0
  Outcome roles acc result =
      (ReachesUnrestricted roles × (result ≡ none))
      ⊎ ((groups : List JsonValue) × Restricted roles groups
          × (result ≡ groups_or_unset loads (acc ++ groups)))

  collect-Outcome :
      (roles acc : List JsonValue) (result : Option (List JsonValue))
      → collect_groups loads roles acc ≡ ok result
      → Outcome roles acc result
  unfolding collect_groups
  collect-Outcome [] acc result h =
      inr ([], no_roles, sym (ok-injective h) ∙ ap (groups_or_unset loads) (sym (append-nil acc)))
  collect-Outcome (role ∷ roles) acc result h =
      let (found, gives, rest) = >>=-eq-ok (role_groups loads role) _ h in
      go found gives rest (λ groups. collect-Outcome roles (acc ++ groups) result)
    where
      go :
          (found : Found)
          → role_groups loads role ≡ ok found
          → elim found [
            | unrestricted ↦ ok none
            | adds groups ↦ collect_groups loads roles (acc ++ groups)
          ]
            ≡ ok result
          → ((groups : List JsonValue)
              → collect_groups loads roles (acc ++ groups) ≡ ok result
              → Outcome roles (acc ++ groups) result)
          → Outcome (role ∷ roles) acc result
      go unrestricted gives rest ih = inl (here gives, sym (ok-injective rest))
      go (adds groups) gives rest ih = elim (ih groups rest) [
        | inl (reaches, e) ↦ inl (later gives reaches, e)
        | inr (more, restricted, e) ↦ inr (
          groups ++ more,
          role_adds gives restricted,
          e ∙ ap (groups_or_unset loads) (append_assoc acc groups more),
        )
      ]

  Restricted-collect :
      (roles acc groups : List JsonValue)
      → Restricted roles groups
      → collect_groups loads roles acc ≡ ok (groups_or_unset loads (acc ++ groups))
  unfolding collect_groups
  Restricted-collect [] acc groups no_roles =
      ap (λ gs. ok (groups_or_unset loads gs)) (sym (append-nil acc))
  Restricted-collect (role ∷ roles) acc groups
        (role_adds {groups = gs} {rest = more} gives restricted) =
      rw gives (
        Restricted-collect roles (acc ++ gs) more restricted
        ∙ ap (λ l. ok (groups_or_unset loads l)) (append_assoc acc gs more))

  Reaches-collect :
      (roles acc : List JsonValue)
      → ReachesUnrestricted roles
      → collect_groups loads roles acc ≡ ok none
  unfolding collect_groups
  Reaches-collect [] acc h = elim h [ ]
  Reaches-collect (role ∷ roles) acc (here gives) = rw gives refl
  Reaches-collect (role ∷ roles) acc (later {groups = gs} gives reaches) =
      rw gives (Reaches-collect roles (acc ++ gs) reaches)

  unset_empty : (gs : List JsonValue) → groups_or_unset loads gs ≡ none → gs ≡ []
  unset_empty [] h = refl
  unset_empty (g ∷ gs) h = cc

  -- The roles leave a request without a restriction to host groups exactly where one of them is
  -- unrestricted and nothing raises in front of it, or where none is and all of them together give no
  -- group.
  pub collect_none :
      (roles : List JsonValue)
      → (collect_groups loads roles [] ≡ ok none)
        ↔ (ReachesUnrestricted roles ⊎ Restricted roles [])
  collect_none roles = (
    λ h. elim (collect-Outcome roles [] none h) [
      | inl (reaches, _) ↦ inl reaches
      | inr (groups, restricted, e) ↦
          inr (subst (Restricted roles) (unset_empty groups (sym e)) restricted)
    ],
    λ h. elim h [
      | inl reaches ↦ Reaches-collect roles [] reaches
      | inr restricted ↦ Restricted-collect roles [] [] restricted
    ],
  )

  some_groups :
      (gs : List JsonValue) {groups : List JsonValue}
      → groups_or_unset loads gs ≡ some groups
      → gs ≡ groups
  some_groups [] h = cc
  some_groups (g ∷ gs) h = some-injective _ _ h

  -- The roles restrict a request exactly to the groups that they give together, where they give one and
  -- none of them is unrestricted.
  pub collect_some :
      (roles : List JsonValue) (group : JsonValue) (groups : List JsonValue)
      → (collect_groups loads roles [] ≡ ok (some (group ∷ groups)))
        ↔ Restricted roles (group ∷ groups)
  collect_some roles group groups = (
    λ h. elim (collect-Outcome roles [] _ h) [
      | inl (_, e) ↦ cc
      | inr (gs, restricted, e) ↦ subst (Restricted roles) (some_groups gs (sym e)) restricted
    ],
    Restricted-collect roles [] (group ∷ groups),
  )
