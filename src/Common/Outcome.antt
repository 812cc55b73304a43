-- ===== src/Common/Outcome.antt =====
-- Python exceptions as values, by the classes that the modelled code tells apart.
use mathlib.Core.Path.{◌≡◌, refl, ap, subst}
use Prim.Native.String.{String}

pub data Exception : Type 0 where
  key_error : String → Exception
  index_error type_error value_error attribute_error : Exception
  unicode_error json_error kafka_error database_error authentication_failed other_error : Exception

pub data Result {ℓ} (A : Type ℓ) : Type ℓ where
  ok : A → Result A
  err : Exception → Result A

infixl 5 ◌>>=◌ ◌>>◌
abbrev pub ◌>>=◌ {ℓ κ} : {A : Type ℓ} {B : Type κ} → Result A → (A → Result B) → Result B
err raised >>= next = err raised
ok a >>= next = next a

-- Where a chain does not raise, its first part does not.
pub >>=-eq-ok {κ ℓ} :
    {A : Type κ} {B : Type ℓ} (first : Result A) (next : A → Result B) {value : B}
    → (first >>= next) ≡ ok value
    → (a : A) × (first ≡ ok a) × (next a ≡ ok value)
>>=-eq-ok (err raised) next returns = cc
>>=-eq-ok (ok a) next returns = (a, refl, returns)

abbrev pub ◌>>◌ {ℓ κ} : {A : Type ℓ} {B : Type κ} → Result A → Result B → Result B
m >> k = m >>= λ _. k

abbrev ok_or {ℓ} : {A : Type ℓ} → A → Result A → A
ok_or d (ok a) = a
ok_or d (err e) = d

pub ok-injective {ℓ} : {A : Type ℓ} {a b : A} → ok a ≡ ok b → a ≡ b
ok-injective {a = a} e = ap (ok_or a) e

abbrev err_or {ℓ} : {A : Type ℓ} → Exception → Result A → Exception
err_or d (ok a) = d
err_or d (err e) = e

pub err-injective {ℓ} : {A : Type ℓ} {d e : Exception} → ◌≡◌ {A = Result A} (err d) (err e) → d ≡ e
err-injective {d = d} h = ap (err_or d) h

-- A condition on the value of a result that does not raise, and its rule for a bind.
abbrev pub OnOk {ℓ κ} : {A : Type ℓ} → (A → Type κ) → Result A → Type κ
OnOk P (ok a) = P a
OnOk P (err e) = Unit

pub OnOk-bind {ℓ κ μ} :
    {A : Type ℓ} {B : Type κ} (P : B → Type μ) (m : Result A) (f : A → Result B)
    → ((a : A) → m ≡ ok a → OnOk P (f a))
    → OnOk P (m >>= f)
OnOk-bind P (ok a) f h = h a refl
OnOk-bind P (err e) f h = tt

pub OnOk-elim {ℓ κ} :
    {A : Type ℓ} (P : A → Type κ) (m : Result A) {a : A} → OnOk P m → m ≡ ok a → P a
OnOk-elim P m {a} h e = subst (OnOk P) e h
