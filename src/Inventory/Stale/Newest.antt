-- ===== src/Inventory/Stale/Newest.antt =====
-- Of several events for one host only the newest is kept.
use advisor_backend.Common.{◌≡◌, refl, List, [], ◌∷◌, string_eq, ok, All, ◌⊎◌, inl, inr}
use advisor_backend.Inventory.Events.{ParsedInventoryHost}
use advisor_backend.Inventory.Stale.{dedupe_item, dedupe}
use advisor_backend.Inventory.Stale.Texts.{
  HasTexts, Covered, HaveDistinctKeys, insert_newest, is_hashable-text, keep_newest-insert_newest,
}
use advisor_backend.Inventory.Stale.Inserting.{
  insert_newest-All, insert_newest-Covered, Covered-insert_newest, insert_newest-HaveDistinctKeys,
}

dedupe_item-insert_newest :
    (item : ParsedInventoryHost) (deduped : List ParsedInventoryHost)
    → HasTexts item
    → All HasTexts deduped
    → dedupe_item item deduped ≡ ok (insert_newest item deduped)
unfolding dedupe_item
dedupe_item-insert_newest item deduped t td = simp (
  is_hashable-text item.org_id t.org_id,
  is_hashable-text item.host_id t.host_id,
  keep_newest-insert_newest item deduped t td,
)

-- The result of a run of `dedupe` from `deduped`.
record Deduped (P : ParsedInventoryHost → Type 0) (items deduped : List ParsedInventoryHost)
    : Type 0 where
  unique : List ParsedInventoryHost
  runs : dedupe items deduped ≡ ok unique
  distinct : HaveDistinctKeys unique
  from_items : All P unique
  covers_items : All (λ a. Covered a unique) items
  covers_deduped : (a : ParsedInventoryHost) → Covered a deduped → Covered a unique

dedupe-Deduped :
    (P : ParsedInventoryHost → Type 0) (items deduped : List ParsedInventoryHost)
    → All HasTexts items
    → All HasTexts deduped
    → All P items
    → All P deduped
    → HaveDistinctKeys deduped
    → Deduped P items deduped
unfolding dedupe
dedupe-Deduped P [] deduped t td p pd d = record {
  unique = deduped;
  runs = refl;
  distinct = d;
  from_items = pd;
  covers_items = tt;
  covers_deduped = λ a c. c;
}
dedupe-Deduped P (item ∷ items) deduped t td p pd d =
    let next =
      dedupe-Deduped P items (insert_newest item deduped) t.1
        (insert_newest-All HasTexts item deduped t.0 td) p.1
        (insert_newest-All P item deduped p.0 pd) (insert_newest-HaveDistinctKeys item deduped d) in
    record {
      unique = next.unique;
      runs = rw (dedupe_item-insert_newest item deduped t.0 td, dedupe) next.runs;
      distinct = next.distinct;
      from_items = next.from_items;
      covers_items =
          (next.covers_deduped item (insert_newest-Covered item deduped), next.covers_items);
      covers_deduped = λ a c. next.covers_deduped a (Covered-insert_newest a item deduped c);
    }

abbrev pub Occurs : ParsedInventoryHost → List ParsedInventoryHost → Type 0
Occurs a [] = ⊥
Occurs a (b ∷ bs) = (a ≡ b) ⊎ Occurs a bs

All-Occurs :
    (items all_items : List ParsedInventoryHost)
    → ((a : ParsedInventoryHost) → Occurs a items → Occurs a all_items)
    → All (λ a. Occurs a all_items) items
All-Occurs [] all_items h = tt
All-Occurs (item ∷ items) all_items h =
    (h item (inl refl), All-Occurs items all_items (λ a o. h a (inr o)))

-- On events with texts for organisation, host id and time of update the de-duplication raises
-- nothing. Its result has no two events for one host, holds only events of the batch, and for each
-- event of the batch it has one for the same host that is not older.
pub dedupe-newest :
    (items : List ParsedInventoryHost)
    → All HasTexts items
    → (unique : List ParsedInventoryHost) × (dedupe items [] ≡ ok unique)
      × HaveDistinctKeys unique
      × All (λ a. Occurs a items) unique
      × All (λ a. Covered a unique) items
dedupe-newest items t =
    let result =
      dedupe-Deduped (λ a. Occurs a items) items [] t tt (All-Occurs items items (λ a o. o)) tt
        tt in
    (result.unique, result.runs, result.distinct, result.from_items, result.covers_items)
