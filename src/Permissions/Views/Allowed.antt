-- ===== src/Permissions/Views/Allowed.antt =====
-- Which views and methods `allowed_views` lets through.
use advisor_backend.Common.{
  String, ◌≡◌, refl, sym, ap, ◌∙◌, ◌⊎◌, inl, inr, ◌↔◌, Bool, true, false, ◌||◌, ◌&&◌, arith, not,
  Option, none, some, List, [], ◌∷◌, ◌++◌, contains, any, ◌==◌, string_eq, if◌then◌else◌, Result,
  ok, >>=-eq-ok, ok-injective, Bool-cases, Option-cases, beq_self,
}
use mathlib.Core.List.{cons≢nil}
use advisor_backend.Common.Dict.{Dict, lookup, lookup-put}
use advisor_backend.Json.{JsonValue, contains_str, subscript, truthy}
use advisor_backend.Permissions.Views.{
  AllowedView, normal, methods_in, add_view, view_methods, view_methods_dict, method_listed,
  view_allowed, has_red_hat_permission_for, is_internal,
}

-- The entry is the view with the method.
abbrev pub lists : String → String → AllowedView → Bool
lists view_name method rv = ((normal rv).0 == view_name) && ((normal rv).1 == method)

lookup-add_view :
    (v m name : String) (d : Dict String (List String))
    → lookup name (add_view (v, m) d)
      ≡ (if v == name then some (methods_in (lookup v d) ++ m ∷ []) else lookup name d)
unfolding add_view
lookup-add_view v m name d = elim (Option-cases (lookup v d)) [
  | inl none_there ↦
      rw none_there (rw lookup-put (rw lookup-put (rw lookup-put (ground (arith, beq_self v)))))
  | inr (ms, there) ↦ rw there (rw lookup-put (rw there refl))
]

contains-append :
    (method m : String) (ms : List String)
    → contains method (ms ++ m ∷ []) ≡ (contains method ms || (m == method))
contains-append method m [] = ground arith
contains-append method m (x ∷ ms) = ground (arith, contains-append method m ms)

contains-methods_in :
    (method : String) (o : Option (List String))
    → contains method (methods_in o) ≡ method_listed method o
contains-methods_in method none = refl
contains-methods_in method (some ms) = refl

or_assoc : (a b c : Bool) → ((a || b) || c) ≡ (a || (b || c))
or_assoc true b c = refl
or_assoc false b c = refl

listed-add_view :
    (v m name method : String) (d : Dict String (List String))
    → method_listed method (lookup name (add_view (v, m) d))
      ≡ (method_listed method (lookup name d) || ((v == name) && (m == method)))
listed-add_view v m name method d = rw lookup-add_view (elim (Bool-cases (v == name)) [
  | inl same ↦ rw same (
      rw ((string_eq.same_iff v name).0 same) (
        rw contains-append
          (ap (λ b. b || (m == method)) (contains-methods_in method (lookup name d)))))
  | inr other ↦ rw other (ground arith)
])

listed-view_methods :
    (rvs : List AllowedView) (name method : String) (d : Dict String (List String))
    → method_listed method (lookup name (view_methods rvs d))
      ≡ (method_listed method (lookup name d) || any (lists name method) rvs)
unfolding view_methods
listed-view_methods [] name method d = ground arith
listed-view_methods (rv ∷ rvs) name method d =
    rw (listed-view_methods rvs name method (add_view (normal rv) d)) (
      rw (listed-add_view (normal rv).0 (normal rv).1 name method d)
        (or_assoc (method_listed method (lookup name d)) _ _))

-- A view and a method pass exactly where `allowed_views` is empty or has an entry for them, a view
-- without a method standing for its GET.
pub view_allowed-lists :
    (allowed_views : List AllowedView) (view_name method : String)
    → (view_allowed allowed_views view_name method ≡ true)
      ↔ ((allowed_views ≡ []) ⊎ (any (lists view_name method) allowed_views ≡ true))
unfolding view_allowed view_methods_dict lookup
view_allowed-lists [] view_name method = (λ h. inl refl, λ h. refl)
view_allowed-lists (rv ∷ rvs) view_name method =
    let e = listed-view_methods (rv ∷ rvs) view_name method [] in
    (
      λ h. inr (sym e ∙ h),
      λ h. elim h [ inl nothing ↦ absurd (cons≢nil nothing) | inr listed ↦ e ∙ listed ],
    )

-- What a granted `BaseRedHatUserPermission` of an internal user shows.
pub record IsInternalUser (identity : JsonValue) : Type 0 where
  pub user : JsonValue
  pub has_user : subscript identity "user" ≡ ok user
  pub flag : JsonValue
  pub has_flag : subscript user "is_internal" ≡ ok flag
  pub is_set : truthy flag ≡ true

if_ok_true : (b : Bool) (m : Result Bool) → (if not b then ok false else m) ≡ ok true → m ≡ ok true
if_ok_true true m h = h
if_ok_true false m h = cc

if_true_both :
    (b : Bool) (m : Result Bool)
    → (if b then m else ok false) ≡ ok true
    → (b ≡ true) × (m ≡ ok true)
if_true_both true m h = (refl, h)
if_true_both false m h = cc

-- `IsRedHatInternalUser` lets a request through only where it has an identity whose user has a true
-- `is_internal`, and only for views and methods that `allowed_views` lets through.
pub granted_IsInternalUser :
    (allowed_views : List AllowedView) (identity : Option JsonValue) (view_name method : String)
    → has_red_hat_permission_for is_internal allowed_views identity view_name method ≡ ok true
    → (view_allowed allowed_views view_name method ≡ true)
      × ((i : JsonValue) × (identity ≡ some i) × IsInternalUser i)
unfolding has_red_hat_permission_for is_internal
granted_IsInternalUser allowed_views none view_name method h = cc
granted_IsInternalUser allowed_views (some i) view_name method h =
    let (present, _, h₁) = >>=-eq-ok (contains_str "user" i) _ h in
    let (allowed, h₂) =
      if_true_both (view_allowed allowed_views view_name method) _ (if_ok_true present _ h₁) in
    let (user, has_user, h₃) = >>=-eq-ok (subscript i "user") _ h₂ in
    let (flagged, _, h₄) = >>=-eq-ok (contains_str "is_internal" user) _ h₃ in
    let (flag, has_flag, h₅) =
      >>=-eq-ok (subscript user "is_internal") _ (if_ok_true flagged _ h₄) in
    (
      allowed,
      (
        i,
        refl,
        record {
          user = user;
          has_user = has_user;
          flag = flag;
          has_flag = has_flag;
          is_set = ok-injective h₅;
        },
      ),
    )
