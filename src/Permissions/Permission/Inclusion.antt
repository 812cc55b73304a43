-- ===== src/Permissions/Permission/Inclusion.antt =====
-- The order of permissions that `in` decides.
use advisor_backend.Common.{
  String, ◌≡◌, refl, sym, ap, ◌∙◌, Bool, true, false, ◌&&◌, ◌||◌, arith, ◌==◌, string_eq, ok,
  ok-injective, ◌⊎◌, inl, inr, Bool-cases,
}
use advisor_backend.Json.{str}
use advisor_backend.Permissions.Permission.{RbacPermission, parse_permission, includes}

-- What `RBACPermission` makes of a text.
abbrev pub IsParsed : RbacPermission → Type 0
IsParsed p = parse_permission (str p.string) ≡ ok p

same_string : (p q : RbacPermission) → IsParsed p → IsParsed q → p.string ≡ q.string → p ≡ q
same_string p q hp hq e = ok-injective (sym hp ∙ ap (λ s. parse_permission (str s)) e ∙ hq)

-- The second permission's method is one that the first one's allows.
abbrev Allows : String → String → Type 0
Allows m n = (m ≡ "*") ⊎ ((m ≡ n) ⊎ ((n ≡ "read") × (m ≡ "write")))

abbrev Covers : String → String → Type 0
Covers a b = (a ≡ b) ⊎ (a ≡ "*")

record IsWider (p q : RbacPermission) : Type 0 where
  app : Covers p.app q.app
  resource : Covers p.resource q.resource
  method : Allows p.method q.method

IsWider-self : (p q : RbacPermission) → p ≡ q → IsWider p q
IsWider-self p q e = record {
  app = inl (ap (λ (r : RbacPermission). r.app) e);
  resource = inl (ap (λ (r : RbacPermission). r.resource) e);
  method = inr (inl (ap (λ (r : RbacPermission). r.method) e));
}

or_cases : (b c : Bool) → (b || c) ≡ true → (b ≡ true) ⊎ (c ≡ true)
or_cases true c h = inl refl
or_cases false c h = inr h

cases-Covers : (a b : String) → ((a == b) || (a == "*")) ≡ true → Covers a b
cases-Covers a b h = elim (or_cases (a == b) (a == "*") h) [
  | inl e ↦ inl ((string_eq.same_iff a b).0 e)
  | inr e ↦ inr ((string_eq.same_iff a "*").0 e)
]

and_both : (b c : Bool) → (b && c) ≡ true → (b ≡ true) × (c ≡ true)
and_both true c h = (refl, h)
and_both false c h = cc

cases-Allows :
    (m n : String)
    → ((m == "*") || ((m == n) || ((n == "read") && (m == "write")))) ≡ true
    → Allows m n
cases-Allows m n h = elim (or_cases (m == "*") _ h) [
  | inl e ↦ inl ((string_eq.same_iff m "*").0 e)
  | inr h' ↦ elim (or_cases (m == n) _ h') [
    | inl e ↦ inr (inl ((string_eq.same_iff m n).0 e))
    | inr e ↦
        let (r, w) = and_both _ _ e in
        inr (inr ((string_eq.same_iff n "read").0 r, (string_eq.same_iff m "write").0 w))
  ]
]

includes-IsWider :
    (p q : RbacPermission) → IsParsed p → IsParsed q → includes p q ≡ true → IsWider p q
unfolding includes
includes-IsWider p q hp hq h = elim (Bool-cases (p.string == q.string)) [
  | inl same ↦
      IsWider-self p q (same_string p q hp hq ((string_eq.same_iff p.string q.string).0 same))
  | inr other ↦ record {
    app = cases-Covers p.app q.app (ground arith);
    resource = cases-Covers p.resource q.resource (ground arith);
    method = cases-Allows p.method q.method (ground arith);
  }
]

IsWider-includes : (p q : RbacPermission) → IsWider p q → includes p q ≡ true
unfolding includes
IsWider-includes p q h = ground (
  arith,
  h.app,
  h.resource,
  h.method,
  string_eq.same_iff p.app q.app,
  string_eq.same_iff p.app "*",
  string_eq.same_iff p.resource q.resource,
  string_eq.same_iff p.resource "*",
  string_eq.same_iff p.method "*",
  string_eq.same_iff p.method q.method,
  string_eq.same_iff q.method "read",
  string_eq.same_iff p.method "write",
)

read≢star : ¬ (◌≡◌ {A = String} "read" "*")
read≢star e = cc

Covers-trans : (a b c : String) → Covers a b → Covers b c → Covers a c
Covers-trans a b c (inl e) (inl f) = inl (e ∙ f)
Covers-trans a b c (inl e) (inr f) = inr (e ∙ f)
Covers-trans a b c (inr e) k = inr e

Allows-trans : (a b c : String) → Allows a b → Allows b c → Allows a c
Allows-trans a b c (inl e) k = inl e
Allows-trans a b c (inr (inl e)) (inl f) = inl (e ∙ f)
Allows-trans a b c (inr (inl e)) (inr (inl f)) = inr (inl (e ∙ f))
Allows-trans a b c (inr (inl e)) (inr (inr (r, w))) = inr (inr (r, e ∙ w))
Allows-trans a b c (inr (inr (r, w))) (inl f) = absurd (read≢star (sym r ∙ f))
Allows-trans a b c (inr (inr (r, w))) (inr (inl f)) = inr (inr (sym f ∙ r, w))
Allows-trans a b c (inr (inr (r, w))) (inr (inr (r', w'))) = inr (inr (r', w))

-- Among permissions that `RBACPermission` made of texts, inclusion is transitive: what a permission in
-- a role's permission includes, the role's permission includes.
pub includes_trans :
    (p q r : RbacPermission)
    → IsParsed p
    → IsParsed q
    → IsParsed r
    → includes p q ≡ true
    → includes q r ≡ true
    → includes p r ≡ true
includes_trans p q r hp hq hr h k =
    let pq = includes-IsWider p q hp hq h in
    let qr = includes-IsWider q r hq hr k in
    IsWider-includes p r (record {
      app = Covers-trans _ _ _ pq.app qr.app;
      resource = Covers-trans _ _ _ pq.resource qr.resource;
      method = Allows-trans _ _ _ pq.method qr.method;
    })
