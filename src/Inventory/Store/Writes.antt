-- ===== src/Inventory/Store/Writes.antt =====
-- What stays written when a write of advisor_inventory_service.py raises.
use advisor_backend.Common.{
  ℕ, ◌-◌, ◌≡◌, refl, Bool, true, false, List, [], ◌∷◌, arith, map, length, ltb, Exception, Result,
  ok, err, ◌⊎◌, inl, inr, ◌∙◌,
}
use advisor_backend.Json.{JsonValue}
use advisor_backend.Inventory.Events.{ParsedInventoryHost, ParsedDeleteEvent}
use advisor_backend.Inventory.Batch.{Sorted, start, sort_messages}
use advisor_backend.Inventory.Stale.{Clock}
use advisor_backend.Inventory.Store.{
  Database, World, Action, ◌>>=◌, AdvisorInventoryHost, when, count, lift, atomic, count_deleted,
  delete_key, count_delete_missing, count_missing, delete_block, bulk_delete_hosts, upsert_block,
  bulk_upsert_hosts, filter_stale, upsert_fresh, write_sorted, handle_inventory_event, not_empty,
  to_advisor_models, to_host_model,
}

-- An action that raises leaves the database as it was.
abbrev RollsBack : {S A : Type 0} → S → Result A × World S → Type 0
RollsBack db (ok a, w') = Unit
RollsBack db (err e, w') = w'.db ≡ db

module _ {S : Type 0} where
  atomic-RollsBack : {A : Type 0} (m : Action S A) (w : World S) → RollsBack w.db (atomic m w)
  unfolding atomic
  atomic-RollsBack {A} m w = go (m w)
    where
      go :
          (r : Result A × World S)
          → RollsBack {A = A} w.db
              (elim r.0 [ ok a ↦ (ok a, r.1) | err e ↦ (err e, record (r.1) { db = w.db }) ])
      go (ok a, w') = tt
      go (err e, w') = refl

  bind-RollsBack :
      {A B : Type 0} (m : Action S A) (f : A → Action S B) (w : World S)
      → RollsBack w.db (m w)
      → ((a : A) (w' : World S) → RollsBack w.db (f a w'))
      → RollsBack w.db ((m >>= f) w)
  bind-RollsBack {A} {B} m f w h k = go (m w) h
    where
      go :
          (r : Result A × World S)
          → RollsBack w.db r
          → RollsBack {A = B} w.db (elim r.0 [ ok a ↦ f a r.1 | err e ↦ (err e, r.1) ])
      go (ok a, w') h = k a w'
      go (err e, w') h = h

module _ (clock : Clock) (database : Database clock) where
  count_missing-RollsBack :
      (requested deleted : ℕ) (db : database.State) (w : World database.State)
      → RollsBack db (count_missing clock database requested deleted w)
  unfolding count_missing
  count_missing-RollsBack requested deleted db w = go (ltb 0 (requested - deleted))
    where
      go : (b : Bool) → RollsBack db (when b (count (count_delete_missing (requested - deleted))) w)
      go true = tt
      go false = tt

  bulk_delete-RollsBack :
      (deletes : List ParsedDeleteEvent) (w : World database.State)
      → RollsBack w.db (bulk_delete_hosts clock database deletes w)
  unfolding bulk_delete_hosts
  bulk_delete-RollsBack deletes w =
      bind-RollsBack (atomic (delete_block clock database (map delete_key deletes)))
        (count_missing clock database (length deletes)) w
        (atomic-RollsBack (delete_block clock database (map delete_key deletes)) w)
        (λ deleted w'. count_missing-RollsBack (length deletes) deleted w.db w')

  bulk_upsert-RollsBack :
      (upserts : List ParsedInventoryHost) (w : World database.State)
      → RollsBack w.db (bulk_upsert_hosts clock database upserts w)
  unfolding bulk_upsert_hosts
  bulk_upsert-RollsBack upserts w = go (to_advisor_models clock upserts)
    where
      go :
          (r : Result (List (AdvisorInventoryHost clock.Time)))
          → RollsBack w.db (
              (lift r >>= λ inv_instances.
              atomic (upsert_block clock database inv_instances (map to_host_model upserts)))
                w)
      go (ok inv_instances) =
          atomic-RollsBack (upsert_block clock database inv_instances (map to_host_model upserts)) w
      go (err e) = refl

  upsert_fresh-RollsBack :
      (upserts : List ParsedInventoryHost) (w : World database.State)
      → RollsBack w.db (upsert_fresh clock database upserts w)
  unfolding upsert_fresh filter_stale
  upsert_fresh-RollsBack upserts w = go (filter_stale clock database upserts w).0
    where
      go :
          (r : Result (List ParsedInventoryHost))
          → RollsBack w.db (
              (lift r >>= λ fresh. when (not_empty fresh) (bulk_upsert_hosts clock database fresh))
                w)
      go (ok []) = tt
      go (ok (h ∷ hs)) = bulk_upsert-RollsBack (h ∷ hs) w
      go (err e) = refl

  -- The database after a raise: as at the start, or as the committed deletions left it.
  abbrev pub IsPartial :
      Sorted → World database.State → Result (Unit {0}) × World database.State → Type 0
  IsPartial s w (ok _, w') = Unit
  IsPartial s w (err e, w') =
      (w'.db ≡ w.db)
      ⊎ ((deleted : World database.State) × (bulk_delete_hosts clock database s.delete_data w
            ≡ (ok tt, deleted))
          × (w'.db ≡ deleted.db))

  upserts_after :
      (s : Sorted) (w w' : World database.State)
      → (w'.db ≡ w.db) ⊎ (bulk_delete_hosts clock database s.delete_data w ≡ (ok tt, w'))
      → (r : Result (Unit {0}) × World database.State) → RollsBack w'.db r
      → IsPartial s w r
  upserts_after s w w' before (ok _, w'') h = tt
  upserts_after s w w' (inl same) (err e, w'') h = inl (h ∙ same)
  upserts_after s w w' (inr deleted) (err e, w'') h = inr (w', deleted, h)

  upserting-RollsBack :
      (upserts : List ParsedInventoryHost) (w : World database.State)
      → RollsBack w.db (when (not_empty upserts) (upsert_fresh clock database upserts) w)
  upserting-RollsBack [] w = tt
  upserting-RollsBack (h ∷ hs) w = upsert_fresh-RollsBack (h ∷ hs) w

  write_sorted-IsPartial :
      (s : Sorted) (w : World database.State) → IsPartial s w (write_sorted clock database s w)
  unfolding write_sorted
  write_sorted-IsPartial s w = go s.delete_data
    where
      upserts : Action database.State (Unit {0})
      upserts = when (not_empty s.upserts) (upsert_fresh clock database s.upserts)

      committed :
          (r : Result (Unit {0}) × World database.State)
          → bulk_delete_hosts clock database s.delete_data w ≡ r
          → RollsBack w.db r
          → IsPartial s w (elim r.0 [ ok a ↦ upserts r.1 | err e ↦ (err e, r.1) ])
      committed (ok _, w') e h =
          upserts_after s w w' (inr e) (upserts w') (upserting-RollsBack s.upserts w')
      committed (err x, w') e h = inl h

      go :
          (ds : List ParsedDeleteEvent)
          → IsPartial s w (
              (when (not_empty ds) (bulk_delete_hosts clock database s.delete_data) >>= λ _.
              upserts)
                w)
      go [] = upserts_after s w w (inl refl) (upserts w) (upserting-RollsBack s.upserts w)
      go (d ∷ ds) =
          committed (bulk_delete_hosts clock database s.delete_data w) refl
            (bulk_delete-RollsBack s.delete_data w)

  -- Where `handle_inventory_event` raises, the database is as it was before the batch, or exactly as
  -- `bulk_delete_hosts` left it when it returned: deletions of the batch stay although its upserts are
  -- lost, and no upsert is written in part.
  pub handle-IsPartial :
      (messages : List JsonValue) (w : World database.State)
      → IsPartial
          (sort_messages messages (start w.metrics))
          (record w { metrics = (sort_messages messages (start w.metrics)).metrics })
          (handle_inventory_event clock database messages w)
  unfolding handle_inventory_event
  handle-IsPartial messages w = write_sorted-IsPartial _ _

  -- The counter of deleted hosts is not rolled back: where the inventory rows are deleted and the
  -- look-up of the hosts raises, the database is unchanged, and the counter has gone up.
  pub rolled_back_but_counted :
      (deletes : List ParsedDeleteEvent) (w : World database.State) (n : ℕ) (db : database.State)
      (e : Exception)
      → database.delete_inventory (map delete_key deletes) w.db ≡ ok (n, db)
      → database.lock_hosts (map delete_key deletes) db ≡ err e
      → bulk_delete_hosts clock database deletes w
        ≡ (err e, record w { metrics = count_deleted n w.metrics })
  unfolding bulk_delete_hosts delete_block atomic
  rolled_back_but_counted deletes w n db e deleted locked = ground (arith, deleted, locked)
