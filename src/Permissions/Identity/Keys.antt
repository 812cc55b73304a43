-- ===== src/Permissions/Identity/Keys.antt =====
-- What `ImportContentPSKAuthentication` accepts.
use Prim.Native.String.{◌++◌}
use text.Mathlib.Text.{starts_with}
use text.Mathlib.TextEquality.{starts_with_iff}
use text.Mathlib.TextLemmas.{cons-append, nil-append}
use advisor_backend.Common.{
  String, ◌≡◌, refl, sym, ap, ◌∙◌, ◌≢◌, ◌⊎◌, inl, inr, Bool, true, false, not, arith, ◌==◌,
  string_eq, Result, ok, >>=-eq-ok, ok-injective, Bool-cases,
}
use advisor_backend.Permissions.Identity.{require, behind_prefix, authenticate_psk, check_key}

require_holds : (b : Bool) {u : Unit {0}} → require b ≡ ok u → b ≡ true
require_holds true h = refl
require_holds false h = cc

behind_psk : (u : String) → behind_prefix ("PSK " ++ u) ≡ u
behind_psk u = rw cons-append (rw cons-append (rw cons-append (rw cons-append (nil-append u))))

checked_key :
    (compare_digest : String → String → Result Bool)
    → ((s t : String) → compare_digest s t ≡ ok true → s ≡ t)
    → (psk auth_header : String) (checked : Bool)
    → check_key compare_digest psk auth_header ≡ ok checked
    → (checked ≡ true) × (auth_header ≡ "PSK " ++ psk)
unfolding check_key
checked_key compare_digest sound psk auth_header checked h =
    let (_, _, h₁) = >>=-eq-ok (require (not (auth_header == ""))) _ h in
    let (_, prefixed, h₂) = >>=-eq-ok (require (starts_with auth_header "PSK ")) _ h₁ in
    let (same, compared, h₃) = >>=-eq-ok (compare_digest (behind_prefix auth_header) psk) _ h₂ in
    let (_, right, h₄) = >>=-eq-ok (require same) _ h₃ in
    let (token, is) = (starts_with_iff auth_header "PSK ").0 (require_holds _ prefixed) in
    let given =
      sound (behind_prefix auth_header) psk (compared ∙ ap ok (require_holds same right)) in
    (
      sym (ok-injective h₄),
      sym is ∙ ap (λ t. "PSK " ++ t) (sym (behind_psk token) ∙ ap behind_prefix is ∙ given),
    )

-- With a sound `compare_digest`, a request is admitted with a checked key only where a key is set and
-- the header is `PSK ` and this key; and it is admitted without a check only where no key is set.
pub authenticated_key :
    (compare_digest : String → String → Result Bool)
    → ((s t : String) → compare_digest s t ≡ ok true → s ≡ t)
    → (psk auth_header : String) (checked : Bool)
    → authenticate_psk compare_digest psk auth_header ≡ ok checked
    → ((psk ≡ "") × (checked ≡ false))
      ⊎ ((psk ≢ "") × (checked ≡ true) × (auth_header ≡ "PSK " ++ psk))
unfolding authenticate_psk
authenticated_key compare_digest sound psk auth_header checked h = elim (Bool-cases (psk == "")) [
  | inl unset ↦
      inl (
        (string_eq.same_iff psk "").0 unset,
        ground (arith, ok-injective {a = false} {b = checked}),
      )
  | inr set ↦ inr (
    λ e. cc ((string_eq.same_iff psk "").1 e),
    (checked_key compare_digest sound psk auth_header checked (ground arith)).0,
    (checked_key compare_digest sound psk auth_header checked (ground arith)).1,
  )
]
