-- ===== src/Inventory/Stale/Texts.antt =====
-- `_filter_stale_events`: the de-duplication on events whose keys and times are texts.
use advisor_backend.Common.{
  String, ◌≡◌, refl, Bool, true, false, ◌&&◌, if◌then◌else◌, List, [], ◌∷◌, arith, ◌==◌, string_eq,
  ok, All, ◌⊎◌,
}
use mathlib.Core.Path.{ap₂}
use advisor_backend.Json.{JsonValue, str, text_gt, json_gt, json_eq}
use advisor_backend.Inventory.Events.{ParsedInventoryHost}
use advisor_backend.Inventory.Stale.{same_key, keep_newest, is_hashable}

abbrev pub text_of : JsonValue → String
text_of (str s) = s
text_of _ = ""

-- The host's key and its time of update are texts, as the annotations of `ParsedInventoryHost` say.
pub record HasTexts (h : ParsedInventoryHost) : Type 0 where
  pub org_id : h.org_id ≡ str (text_of h.org_id)
  pub host_id : h.host_id ≡ str (text_of h.host_id)
  pub updated : h.updated ≡ str (text_of h.updated)

-- One key, and `b` is not older than `a`.
pub record IsCoveredBy (a b : ParsedInventoryHost) : Type 0 where
  pub org_id : text_of a.org_id ≡ text_of b.org_id
  pub host_id : text_of a.host_id ≡ text_of b.host_id
  pub not_newer : text_gt (text_of a.updated) (text_of b.updated) ≡ false

abbrev pub Covered : ParsedInventoryHost → List ParsedInventoryHost → Type 0
Covered a [] = ⊥
Covered a (b ∷ bs) = IsCoveredBy a b ⊎ Covered a bs

unfoldable pub agrees : ParsedInventoryHost → ParsedInventoryHost → Bool
agrees a b = (text_of b.org_id == text_of a.org_id) && (text_of b.host_id == text_of a.host_id)

abbrev pub Differ : ParsedInventoryHost → ParsedInventoryHost → Type 0
Differ a b = ¬ ((text_of a.org_id ≡ text_of b.org_id) × (text_of a.host_id ≡ text_of b.host_id))

abbrev pub HaveDistinctKeys : List ParsedInventoryHost → Type 0
HaveDistinctKeys [] = Unit
HaveDistinctKeys (a ∷ as') = All (Differ a) as' × HaveDistinctKeys as'

pub agrees-true :
    (a b : ParsedInventoryHost)
    → agrees a b ≡ true
    → (text_of a.org_id ≡ text_of b.org_id) × (text_of a.host_id ≡ text_of b.host_id)
unfolding agrees
agrees-true a b h = ground (
  arith,
  string_eq.same_iff (text_of b.org_id) (text_of a.org_id),
  string_eq.same_iff (text_of b.host_id) (text_of a.host_id),
)

pub agrees-false : (a b : ParsedInventoryHost) → agrees a b ≡ false → Differ a b
unfolding agrees
agrees-false a b h (org, id) = ground (
  arith,
  string_eq.same_iff (text_of b.org_id) (text_of a.org_id),
  string_eq.same_iff (text_of b.host_id) (text_of a.host_id),
)

unfoldable pub newer : ParsedInventoryHost → ParsedInventoryHost → Bool
newer a b = text_gt (text_of a.updated) (text_of b.updated)

-- `keep_newest` for hosts with texts.
unfoldable pub insert_newest :
    ParsedInventoryHost → List ParsedInventoryHost → List ParsedInventoryHost
insert_newest item [] = item ∷ []
insert_newest item (old ∷ rest) =
    if agrees item old
    then (if newer item old then item else old) ∷ rest
    else old ∷ insert_newest item rest

abbrev pub IsText : JsonValue → Type 0
IsText v = v ≡ str (text_of v)

json_eq-texts : (v w : JsonValue) → IsText v → IsText w → json_eq v w ≡ (text_of w == text_of v)
unfolding json_eq
json_eq-texts (str s) (str t) p q = refl
json_eq-texts (str s) _ p q = cc
json_eq-texts _ _ p q = cc

json_gt-texts :
    (v w : JsonValue) → IsText v → IsText w → json_gt v w ≡ ok (text_gt (text_of v) (text_of w))
unfolding json_gt
json_gt-texts (str s) (str t) p q = refl
json_gt-texts (str s) _ p q = cc
json_gt-texts _ _ p q = cc

pub is_hashable-text : (v : JsonValue) → IsText v → is_hashable v ≡ true
is_hashable-text (str s) p = refl
is_hashable-text _ p = cc

same_key-agrees : (a b : ParsedInventoryHost) → HasTexts a → HasTexts b → same_key a b ≡ agrees a b
unfolding agrees
same_key-agrees a b ta tb =
    ap₂ ◌&&◌ (json_eq-texts a.org_id b.org_id ta.org_id tb.org_id)
      (json_eq-texts a.host_id b.host_id ta.host_id tb.host_id)

json_gt-newer :
    (a b : ParsedInventoryHost)
    → HasTexts a
    → HasTexts b
    → json_gt a.updated b.updated ≡ ok (newer a b)
unfolding newer
json_gt-newer a b ta tb = json_gt-texts a.updated b.updated ta.updated tb.updated

ok_if : {A : Type 0} (b : Bool) (x y : A) → (if b then ok x else ok y) ≡ ok (if b then x else y)
ok_if true x y = refl
ok_if false x y = refl

pub true_and_false : {b : Bool} → b ≡ true → b ≡ false → ⊥
true_and_false h k = cc

pub keep_newest-insert_newest :
    (item : ParsedInventoryHost) (deduped : List ParsedInventoryHost)
    → HasTexts item
    → All HasTexts deduped
    → keep_newest item deduped ≡ ok (insert_newest item deduped)
unfolding keep_newest insert_newest
keep_newest-insert_newest item [] t ts = refl
keep_newest-insert_newest item (old ∷ rest) t ts =
    simp
      (
        same_key-agrees item old t ts.0,
        json_gt-newer item old t ts.0,
        keep_newest-insert_newest item rest t ts.1,
      )
      (ok_if (agrees item old) _ _)
