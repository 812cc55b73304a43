-- ===== src/Inventory/Stale/Inserting.antt =====
-- `_filter_stale_events`: what one round of the de-duplication keeps.
use advisor_backend.Common.{
  ◌≡◌, refl, sym, ◌∙◌, Bool, true, false, if◌then◌else◌, List, [], ◌∷◌, string_eq, All, ◌⊎◌, inl,
  inr, Bool-cases,
}
use advisor_backend.Json.{text_gt}
use advisor_backend.Json.TextOrder.{text_gt_irrefl, text_gt_trans}
use advisor_backend.Inventory.Events.{ParsedInventoryHost}
use advisor_backend.Inventory.Stale.Texts.{
  text_of, IsCoveredBy, Covered, Differ, HaveDistinctKeys, agrees, newer, insert_newest,
  agrees-true, agrees-false, true_and_false,
}

pub insert_newest-All :
    (P : ParsedInventoryHost → Type 0) (item : ParsedInventoryHost)
    (deduped : List ParsedInventoryHost)
    → P item
    → All P deduped
    → All P (insert_newest item deduped)
unfolding insert_newest
insert_newest-All P item [] p ps = (p, tt)
insert_newest-All P item (old ∷ rest) p ps =
    go (agrees item old) (newer item old) (insert_newest-All P item rest p ps.1)
  where
    go :
        (same new : Bool)
        → All P (insert_newest item rest)
        → All P (if same then (if new then item else old) ∷ rest else old ∷ insert_newest item rest)
    go true true ih = (p, ps.1)
    go true false ih = ps
    go false new ih = (ps.0, ih)

IsCoveredBy-self : (a : ParsedInventoryHost) → IsCoveredBy a a
IsCoveredBy-self a = record { org_id = refl; host_id = refl; not_newer = text_gt_irrefl _ }

IsCoveredBy-newer :
    (a b c : ParsedInventoryHost)
    → (text_of c.org_id ≡ text_of b.org_id) × (text_of c.host_id ≡ text_of b.host_id)
    → newer c b ≡ true
    → IsCoveredBy a b
    → IsCoveredBy a c
unfolding newer
IsCoveredBy-newer a b c same new h = record {
  org_id = h.org_id ∙ sym same.0;
  host_id = h.host_id ∙ sym same.1;
  not_newer = elim (Bool-cases (text_gt (text_of a.updated) (text_of c.updated))) [
    | inl t ↦ absurd (true_and_false (text_gt_trans _ _ _ t new) h.not_newer)
    | inr f ↦ f
  ];
}

pub insert_newest-Covered :
    (item : ParsedInventoryHost) (deduped : List ParsedInventoryHost)
    → Covered item (insert_newest item deduped)
unfolding insert_newest
insert_newest-Covered item [] = inl (IsCoveredBy-self item)
insert_newest-Covered item (old ∷ rest) =
    go (agrees item old) (newer item old) refl refl (insert_newest-Covered item rest)
  where
    go :
        (same new : Bool)
        → agrees item old ≡ same
        → newer item old ≡ new
        → Covered item (insert_newest item rest)
        → Covered item
            (if same then (if new then item else old) ∷ rest else old ∷ insert_newest item rest)
    go true true s n ih = inl (IsCoveredBy-self item)
    go true false s n ih =
        let (org, id) = agrees-true item old s in
        inl (record { org_id = org; host_id = id; not_newer = unfold newer in n })
    go false new s n ih = inr ih

pub Covered-insert_newest :
    (a item : ParsedInventoryHost) (deduped : List ParsedInventoryHost)
    → Covered a deduped
    → Covered a (insert_newest item deduped)
unfolding insert_newest
Covered-insert_newest a item [] c = absurd c
Covered-insert_newest a item (old ∷ rest) c =
    go (agrees item old) (newer item old) refl refl c (Covered-insert_newest a item rest)
  where
    go :
        (same new : Bool)
        → agrees item old ≡ same
        → newer item old ≡ new
        → IsCoveredBy a old ⊎ Covered a rest
        → (Covered a rest → Covered a (insert_newest item rest))
        → Covered a
            (if same then (if new then item else old) ∷ rest else old ∷ insert_newest item rest)
    go true true s n (inl h) ih = inl (IsCoveredBy-newer a old item (agrees-true item old s) n h)
    go true false s n (inl h) ih = inl h
    go true new s n (inr later) ih = inr later
    go false new s n (inl h) ih = inl h
    go false new s n (inr later) ih = inr (ih later)

All-Differ-agreeing :
    (a b : ParsedInventoryHost) (l : List ParsedInventoryHost)
    → (text_of a.org_id ≡ text_of b.org_id) × (text_of a.host_id ≡ text_of b.host_id)
    → All (Differ b) l
    → All (Differ a) l
All-Differ-agreeing a b [] same d = tt
All-Differ-agreeing a b (c ∷ l) same d =
    (λ (org, id). d.0 (sym same.0 ∙ org, sym same.1 ∙ id), All-Differ-agreeing a b l same d.1)

pub insert_newest-HaveDistinctKeys :
    (item : ParsedInventoryHost) (deduped : List ParsedInventoryHost)
    → HaveDistinctKeys deduped
    → HaveDistinctKeys (insert_newest item deduped)
unfolding insert_newest
insert_newest-HaveDistinctKeys item [] d = (tt, tt)
insert_newest-HaveDistinctKeys item (old ∷ rest) d =
    go (agrees item old) (newer item old) refl (insert_newest-HaveDistinctKeys item rest d.1)
  where
    go :
        (same new : Bool)
        → agrees item old ≡ same
        → HaveDistinctKeys (insert_newest item rest)
        → HaveDistinctKeys
            (if same then (if new then item else old) ∷ rest else old ∷ insert_newest item rest)
    go true true s ih = (All-Differ-agreeing item old rest (agrees-true item old s) d.0, d.1)
    go true false s ih = d
    go false new s ih = (
      insert_newest-All (Differ old) item rest
          (λ (org, id). agrees-false item old s (sym org, sym id)) d.0,
      ih,
    )
