-- ===== src/Common/Actions.antt =====
-- Actions on a state that may raise; what was done before the exception stays done.
use mathlib.Core.Path.{◌≡◌, refl, ap}
use advisor_backend.Common.Outcome.{Exception, Result, ok, err}

abbrev pub Action : Type 0 → Type 0 → Type 0
Action S A = S → Result A × S

module _ {S : Type 0} where
  infixl 5 ◌>>=◌ ◌>>◌
  abbrev pub ◌>>=◌ : {A B : Type 0} → Action S A → (A → Action S B) → Action S B
  ◌>>=◌ m f s = elim (m s).0 [ ok a ↦ f a (m s).1 | err e ↦ (err e, (m s).1) ]

  abbrev pub ◌>>◌ : {A B : Type 0} → Action S A → Action S B → Action S B
  m >> k = m >>= λ _. k

  abbrev pub pure : {A : Type 0} → A → Action S A
  pure a s = (ok a, s)

  abbrev pub raise : {A : Type 0} → Exception → Action S A
  raise e s = (err e, s)

  abbrev pub lift : {A : Type 0} → Result A → Action S A
  lift r s = (r, s)

  -- The value by a look at the state, which may raise.
  abbrev pub query : {A : Type 0} → (S → Result A) → Action S A
  query q s = (q s, s)

  abbrev pub modify : (S → S) → Action S (Unit {0})
  modify f s = (ok tt, f s)

  -- Where a chain does not raise, its first part does not.
  >>=-eq-ok_of :
      {A B : Type 0} (f : A → Action S B) (r : Result A × S) {b : B} {s' : S}
      → elim r.0 as (λ _. Result B × S) [ ok a ↦ f a r.1 | err e ↦ (err e, r.1) ] ≡ (ok b, s')
      → (a : A) × (s₁ : S) × (r ≡ (ok a, s₁)) × (f a s₁ ≡ (ok b, s'))
  >>=-eq-ok_of f (ok a, s₁) h = (a, s₁, refl, h)
  >>=-eq-ok_of f (err e, s₁) h = cc

  pub >>=-eq-ok :
      {A B : Type 0} (m : Action S A) (f : A → Action S B) (s : S) {b : B} {s' : S}
      → (m >>= f) s ≡ (ok b, s')
      → (a : A) × (s₁ : S) × (m s ≡ (ok a, s₁)) × (f a s₁ ≡ (ok b, s'))
  >>=-eq-ok m f s h = >>=-eq-ok_of f (m s) h

  -- A chain whose first part returns goes on behind it.
  pub >>=-of-ok :
      {A B : Type 0} (m : Action S A) (f : A → Action S B) (s : S) {a : A} {s₁ : S}
      → m s ≡ (ok a, s₁)
      → (m >>= f) s ≡ f a s₁
  >>=-of-ok {A} {B} m f s h =
      ap (λ r. elim r.0 as (λ _. Result B × S) [ ok a ↦ f a r.1 | err e ↦ (err e, r.1) ]) h
