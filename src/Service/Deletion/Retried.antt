-- ===== src/Service/Deletion/Retried.antt =====
-- What the deletions of a system's records have done where they return and where they raise.
use advisor_backend.Common.{
  ℕ, zero, suc, ◌+◌, ◌<◌, Bool, true, false, if◌then◌else◌, [], ◌∷◌, ◌++◌, Exception, Result, ok,
  err, type_error, ◌≡◌, refl, ◌⊎◌, inl, inr, arith, ap, ◌∙◌,
}
use advisor_backend.Common.Actions.{Action, ◌>>=◌, modify}
use advisor_backend.Json.{JsonValue}
use advisor_backend.Service.Deletion.{
  is_database_error, ServiceWorld, Deletions, Tried, deleted, given_up, raised, after_deletion,
  retry_deletion, finish_deletion, delete_or_raise, payload_status, delete_records,
}

module _ {S : Type 0} where
  -- As many attempts in a row that end in errors of the database.
  abbrev pub Fails : Action S (Unit {0}) → ℕ → S → S → Type 0
  Fails delete zero s s' = s' ≡ s
  Fails delete (suc n) s s' =
      (e : Exception) × (s₁ : S) × (delete s ≡ (err e, s₁))
      × (is_database_error e ≡ true)
      × Fails delete n s₁ s'

  -- An attempt that ends the loop, behind fewer failures than there are attempts.
  abbrev pub EndsWith : Action S (Unit {0}) → ℕ → Result (Unit {0}) → S → S → Type 0
  EndsWith delete n result s s' =
      (k : ℕ) × (s₁ : S) × (k < n) × Fails delete k s s₁ × (delete s₁ ≡ (result, s'))

  abbrev pub IsTried : Action S (Unit {0}) → ℕ → S → Tried × S → Type 0
  IsTried delete n s (deleted, s') = EndsWith delete n (ok tt) s s'
  IsTried delete n s (given_up e, s') = Fails delete n s s'
  IsTried delete n s (raised e, s') = EndsWith delete n (err e) s s' × (is_database_error e ≡ false)

  -- A failure in front of what comes later.
  fails_first :
      (delete : Action S (Unit {0})) (n : ℕ) (s s₁ : S) (e : Exception) (t : Tried × S)
      → delete s ≡ (err e, s₁)
      → is_database_error e ≡ true
      → IsTried delete n s₁ t
      → IsTried delete (suc n) s t
  fails_first delete n s s₁ e (deleted, s') h d (k, s₂, below, fails, ends) =
      (suc k, s₂, omega arith, (e, s₁, h, d, fails), ends)
  fails_first delete n s s₁ e (given_up x, s') h d fails = (e, s₁, h, d, fails)
  fails_first delete n s s₁ e (raised x, s') h d ((k, s₂, below, fails, ends), other) =
      ((suc k, s₂, omega arith, (e, s₁, h, d, fails), ends), other)

  retry_deletion-IsTried :
      (n : ℕ) (delete : Action S (Unit {0})) (last_error : Exception) (s : S)
      → IsTried delete n s (retry_deletion n delete last_error s)
  unfolding retry_deletion
  retry_deletion-IsTried zero delete last_error s = refl
  retry_deletion-IsTried (suc n) delete last_error s =
      go (delete s) refl (retry_deletion-IsTried n delete)
    where
      failed :
          (e : Exception) (s₁ : S)
          → delete s ≡ (err e, s₁)
          → (b : Bool) → is_database_error e ≡ b
          → IsTried delete n s₁ (retry_deletion n delete e s₁)
          → IsTried delete (suc n) s (if b then retry_deletion n delete e s₁ else (raised e, s₁))
      failed e s₁ h true d later =
          fails_first delete n s s₁ e (retry_deletion n delete e s₁) h d later
      failed e s₁ h false d later = ((0, s, omega arith, refl, h), d)

      go :
          (r : Result (Unit {0}) × S)
          → delete s ≡ r
          → ((e : Exception) (s₁ : S) → IsTried delete n s₁ (retry_deletion n delete e s₁))
          → IsTried delete (suc n) s (after_deletion r (retry_deletion n delete))
      go (ok u, s₁) h later = (0, s, omega arith, refl, h)
      go (err e, s₁) h later = failed e s₁ h (is_database_error e) refl (later e s₁)

  -- What a deletion that raises leaves: the status and the counter tell of it where it was given up,
  -- and nothing does where the exception was another.
  abbrev pub IsStopped :
      Action S (Unit {0}) → ℕ → Exception → ServiceWorld S → ServiceWorld S → Type 0
  IsStopped delete n e w w' =
      (Fails delete n w.db w'.db
        × (w'.statuses ≡ w.statuses ++ "error" ∷ [])
        × (w'.errors ≡ w.errors + 1))
      ⊎ (EndsWith delete n (err e) w.db w'.db
          × (is_database_error e ≡ false)
          × (w'.statuses ≡ w.statuses)
          × (w'.errors ≡ w.errors))

  abbrev pub IsStep :
      Action S (Unit {0}) → ℕ → ServiceWorld S → Result (Unit {0}) × ServiceWorld S → Type 0
  IsStep delete n w (ok u, w') =
      EndsWith delete n (ok tt) w.db w'.db × (w'.statuses ≡ w.statuses) × (w'.errors ≡ w.errors)
  IsStep delete n w (err e, w') = IsStopped delete n e w w'

  delete_or_raise-IsStep :
      (n : ℕ) (delete : Action S (Unit {0})) (w : ServiceWorld S)
      → IsStep delete n w (delete_or_raise n delete w)
  unfolding delete_or_raise finish_deletion
  delete_or_raise-IsStep n delete w =
      go (retry_deletion n delete type_error w.db) (retry_deletion-IsTried n delete type_error w.db)
    where
      go : (t : Tried × S) → IsTried delete n w.db t → IsStep delete n w (finish_deletion t w)
      go (deleted, s) tried = (tried, refl, refl)
      go (given_up e, s) tried = inl (tried, refl, refl)
      go (raised e, s) (tried, other) = inr (tried, other, refl, refl)

  module _ (n : ℕ) (deletions : Deletions S) (inventory_id org_id : JsonValue) where
    abbrev uploads : Action S (Unit {0})
    uploads = deletions.delete_uploads inventory_id org_id

    abbrev reports : Action S (Unit {0})
    reports = deletions.delete_current_reports inventory_id org_id

    abbrev acks : Action S (Unit {0})
    acks = deletions.delete_host_acks inventory_id org_id

    -- The deletions up to the one that raises.
    abbrev pub IsDeleted : ServiceWorld S → Result (Unit {0}) × ServiceWorld S → Type 0
    IsDeleted w (ok u, w') =
        (s₁ : S) × (s₂ : S) × EndsWith uploads n (ok tt) w.db s₁
        × EndsWith reports n (ok tt) s₁ s₂
        × EndsWith acks n (ok tt) s₂ w'.db
        × (w'.statuses ≡ (w.statuses ++ "received" ∷ []) ++ "success" ∷ [])
        × (w'.errors ≡ w.errors)
    IsDeleted w (err e, w') =
        IsStopped uploads n e (payload_status "received" w) w'
        ⊎ ((w₁ : ServiceWorld S) × IsStep uploads n (payload_status "received" w) (ok tt, w₁)
            × (IsStopped reports n e w₁ w'
                ⊎ ((w₂ : ServiceWorld S) × IsStep reports n w₁ (ok tt, w₂)
                    × IsStopped acks n e w₂ w')))

    -- Where the deletion of a system's records returns, its uploads, then its current reports and then
    -- its host acks were deleted, each by an attempt behind fewer than `n` errors of the database, and the
    -- statuses are those of the start and of success. Where it raises, the first deletion that did not
    -- come through raised, the ones in front of it stay done and the later ones were not tried: all its
    -- `n` attempts met errors of the database, which is told and counted, or an attempt behind fewer
    -- of them raised another exception, which is neither.
    pub delete_records-IsDeleted :
        (w : ServiceWorld S) → IsDeleted w (delete_records n deletions inventory_id org_id w)
    unfolding delete_records
    delete_records-IsDeleted w =
        first (delete_or_raise n uploads (payload_status "received" w))
          (delete_or_raise-IsStep n uploads (payload_status "received" w))
      where
        third :
            (w₁ w₂ : ServiceWorld S)
            → IsStep uploads n (payload_status "received" w) (ok tt, w₁)
            → IsStep reports n w₁ (ok tt, w₂)
            → (r : Result (Unit {0}) × ServiceWorld S) → IsStep acks n w₂ r
            → IsDeleted w (elim r.0 as (λ _. Result (Unit {0}) × ServiceWorld S) [
              | ok u ↦ (ok tt, payload_status "success" r.1)
              | err e ↦ (err e, r.1)
            ])
        third w₁ w₂ (ends₁, statuses₁, errors₁) (ends₂, statuses₂, errors₂) (ok u, w₃)
              (ends, statuses, errors) =
            (
              w₁.db,
              w₂.db,
              ends₁,
              ends₂,
              ends,
              ap (λ l. l ++ "success" ∷ []) (statuses ∙ statuses₂ ∙ statuses₁),
              errors ∙ errors₂ ∙ errors₁,
            )
        third w₁ w₂ s₁ s₂ (err e, w₃) stopped = inr (w₁, s₁, inr (w₂, s₂, stopped))

        second :
            (w₁ : ServiceWorld S)
            → IsStep uploads n (payload_status "received" w) (ok tt, w₁)
            → (r : Result (Unit {0}) × ServiceWorld S) → IsStep reports n w₁ r
            → IsDeleted w (elim r.0 as (λ _. Result (Unit {0}) × ServiceWorld S) [
              | ok u ↦ (delete_or_raise n acks >>= λ _. modify (payload_status "success")) r.1
              | err e ↦ (err e, r.1)
            ])
        second w₁ s₁ (ok tt, w₂) s₂ =
            third w₁ w₂ s₁ s₂ (delete_or_raise n acks w₂) (delete_or_raise-IsStep n acks w₂)
        second w₁ s₁ (err e, w₂) stopped = inr (w₁, s₁, inl stopped)

        first :
            (r : Result (Unit {0}) × ServiceWorld S)
            → IsStep uploads n (payload_status "received" w) r
            → IsDeleted w (elim r.0 as (λ _. Result (Unit {0}) × ServiceWorld S) [
              | ok u ↦
                  (delete_or_raise n reports >>= λ _.
                  delete_or_raise n acks >>= λ _. modify (payload_status "success"))
                    r.1
              | err e ↦ (err e, r.1)
            ])
        first (ok tt, w₁) s₁ =
            second w₁ s₁ (delete_or_raise n reports w₁) (delete_or_raise-IsStep n reports w₁)
        first (err e, w₁) stopped = inl stopped
