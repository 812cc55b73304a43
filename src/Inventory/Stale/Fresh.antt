-- ===== src/Inventory/Stale/Fresh.antt =====
-- Of the newest events those are kept that are newer than what is stored.
use advisor_backend.Common.{
  ◌≡◌, refl, Bool, true, false, if◌then◌else◌, Option, none, some, List, [], ◌∷◌, Result, ok, err,
  ◌>>=◌, ◌⊎◌, inl, inr, OnOk, OnOk-bind, OnOk-elim, >>=-eq-ok, ap, ◌∙◌, ◌↔◌,
}
use advisor_backend.Inventory.Events.{ParsedInventoryHost}
use advisor_backend.Inventory.Stale.{
  Clock, Rows, stored_at, later_than, is_fresh, keep_fresh, filter_stale_events, dedupe,
  existing_rows,
}
use advisor_backend.Inventory.Stale.Newest.{Occurs}

ok_true_and_false : {r : Result Bool} → r ≡ ok false → r ≡ ok true → ⊥
ok_true_and_false h k = cc

module _ (clock : Clock) where
  open clock use {Time, parse_datetime, later}

  -- Nothing is stored for the host, or its event has a time that is later than the stored one.
  abbrev pub IsNews : Rows clock → ParsedInventoryHost → Type 0
  IsNews existing item =
      (stored_at clock item.org_id item.host_id existing ≡ none)
      ⊎ ((t : Time) × (u : Time) × (stored_at clock item.org_id item.host_id existing ≡ some t)
          × (parse_datetime item.updated ≡ ok (some u))
          × (later u t ≡ ok true))

  is_fresh-IsNews :
      (existing : Rows clock) (item : ParsedInventoryHost)
      → is_fresh clock existing item ≡ ok true
      → IsNews existing item
  unfolding is_fresh
  is_fresh-IsNews existing item h = go (stored_at clock item.org_id item.host_id existing) refl h
    where
      compared :
          (t : Time) (r : Result (Option Time))
          → parse_datetime item.updated ≡ r
          → (r >>= λ updated. later_than clock updated t) ≡ ok true
          → (u : Time) × (parse_datetime item.updated ≡ ok (some u)) × (later u t ≡ ok true)
      compared t (ok (some u)) parsed e = (u, parsed, e)
      compared t (ok none) parsed e = cc
      compared t (err x) parsed e = cc

      go :
          (o : Option Time)
          → stored_at clock item.org_id item.host_id existing ≡ o
          → elim o [
            | none ↦ ok true
            | some t ↦ do updated ← parse_datetime item.updated; later_than clock updated t
          ]
            ≡ ok true
          → IsNews existing item
      go none stored e = inl stored
      go (some t) stored e =
          let (u, parsed, newer) = compared t (parse_datetime item.updated) refl e in
          inr (t, u, stored, parsed, newer)

  IsNews-is_fresh :
      (existing : Rows clock) (item : ParsedInventoryHost)
      → IsNews existing item
      → is_fresh clock existing item ≡ ok true
  unfolding is_fresh
  IsNews-is_fresh existing item (inl stored) = rw (stored, is_fresh)
  IsNews-is_fresh existing item (inr (t, u, stored, parsed, newer)) =
      rw (stored, is_fresh) (rw parsed newer)

  abbrev Selects : Rows clock → List ParsedInventoryHost → List ParsedInventoryHost → Type 0
  Selects existing items fresh =
      (item : ParsedInventoryHost)
      → Occurs item fresh ↔ (Occurs item items × (is_fresh clock existing item ≡ ok true))

  Selects-cons :
      (existing : Rows clock) (item : ParsedInventoryHost) (items rest : List ParsedInventoryHost)
      (fresh : Bool)
      → is_fresh clock existing item ≡ ok fresh
      → Selects existing items rest
      → Selects existing (item ∷ items) (if fresh then item ∷ rest else rest)
  Selects-cons existing item items rest true e ih a = (
    λ o. elim o [
      | inl same ↦ (inl same, rw same e)
      | inr later ↦ (inr ((ih a).0 later).0, ((ih a).0 later).1)
    ],
    λ (o, news). elim o [ inl same ↦ inl same | inr later ↦ inr ((ih a).1 (later, news)) ],
  )
  Selects-cons existing item items rest false e ih a = (
    λ o. (inr ((ih a).0 o).0, ((ih a).0 o).1),
    λ (o, news). elim o [
      | inl same ↦ absurd (ok_true_and_false (ap (is_fresh clock existing) same ∙ e) news)
      | inr later ↦ (ih a).1 (later, news)
    ],
  )

  keep_fresh-Selects :
      (existing : Rows clock) (items : List ParsedInventoryHost)
      → OnOk (Selects existing items) (keep_fresh clock existing items)
  unfolding keep_fresh
  keep_fresh-Selects existing [] = λ a. (λ o. absurd o, λ (o, news). absurd o)
  keep_fresh-Selects existing (item ∷ items) =
      let ih = keep_fresh-Selects existing items in
      OnOk-bind (Selects existing (item ∷ items)) (is_fresh clock existing item) _ λ fresh e.
        OnOk-bind (Selects existing (item ∷ items)) (keep_fresh clock existing items) _ λ rest kept.
          Selects-cons existing item items rest fresh e
            (OnOk-elim (Selects existing items) (keep_fresh clock existing items) ih kept)

  -- What `_filter_stale_events` returns are exactly those of the de-duplicated events for whose host
  -- nothing is stored, or a time that is earlier than the event's.
  pub filter_stale-IsNews :
      (query : List ParsedInventoryHost → Result (Rows clock))
      (upserts fresh : List ParsedInventoryHost)
      → filter_stale_events clock query upserts ≡ ok fresh
      → (unique : List ParsedInventoryHost) × (existing : Rows clock) × (dedupe upserts []
          ≡ ok unique)
        × (existing_rows clock query unique ≡ ok existing)
        × ((item : ParsedInventoryHost)
            → Occurs item fresh ↔ (Occurs item unique × IsNews existing item))
  unfolding filter_stale_events
  filter_stale-IsNews query upserts fresh h =
      let (unique, deduped, h₁) = >>=-eq-ok (dedupe upserts []) _ h in
      let (existing, stored, h₂) = >>=-eq-ok (existing_rows clock query unique) _ h₁ in
      let selects =
        OnOk-elim (Selects existing unique) (keep_fresh clock existing unique)
          (keep_fresh-Selects existing unique) h₂ in
      (
        unique,
        existing,
        deduped,
        stored,
        λ item. (
          λ o. (((selects item).0 o).0, is_fresh-IsNews existing item ((selects item).0 o).1),
          λ (o, news). (selects item).1 (o, IsNews-is_fresh existing item news),
        ),
      )
