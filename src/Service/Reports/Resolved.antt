-- ===== src/Service/Reports/Resolved.antt =====
-- The rules of rows that are created, updated and deleted.
use advisor_backend.Common.{
  String, Bool, true, false, not, ◌&&◌, if◌then◌else◌, Option, none, some, List, [], ◌∷◌, ◌++◌,
  filter, contains, ok, err, string_eq, nat_eq, ◌==◌, ◌≡◌, refl, ap, sym, ◌∙◌, inl, inr, All, arith,
  Bool-cases, append_assoc, append-nil, beq_of_ne, database_error, ok-injective, beq_self,
}
use advisor_backend.Service.Reports.{
  Report, Rule, CurrentReport, find_rule, has_rule, bulk_create, update_row, update_rows,
  update_existing, resolved_rule_ids, delete_reports,
}

abbrev pub rules_of : List CurrentReport → List Rule
rules_of [] = []
rules_of (row ∷ rows) = row.rule ∷ rules_of rows

-- The rules that the reports name and that have no report yet, in order.
abbrev pub unless : Bool → Rule → List Rule → List Rule
unless true r rs = rs
unless false r rs = r ∷ rs

abbrev pub with_rule : Option Rule → List CurrentReport → List Rule → List Rule
with_rule none rows rs = rs
with_rule (some rule) rows rs = unless (has_rule rule.id rows) rule rs

abbrev pub unstored : List Rule → List String → List CurrentReport → List Report → List Rule
unstored rules ids rows [] = []
unstored rules ids rows (report ∷ reports) =
    with_rule (find_rule ids report.rule_id rules) rows (unstored rules ids rows reports)

abbrev pub among_ids : List String → Rule → Bool
among_ids ids rule = contains rule.rule_id ids

pub rules_of-append :
    (xs ys : List CurrentReport) → rules_of (xs ++ ys) ≡ rules_of xs ++ rules_of ys
rules_of-append [] ys = refl
rules_of-append (x ∷ xs) ys = ap (λ l. x.rule ∷ l) (rules_of-append xs ys)

-- A row goes where its rule is resolved.
pub rules_of-delete :
    (resolved : List String) (rows : List CurrentReport)
    → rules_of (delete_reports resolved rows)
      ≡ filter (λ (r : Rule). not (contains r.rule_id resolved)) (rules_of rows)
rules_of-delete resolved [] = refl
rules_of-delete resolved (row ∷ rows) =
    elim (Bool-cases (not (contains row.rule.rule_id resolved))) [
      | inl stays ↦ rw stays (ap (λ l. row.rule ∷ l) (rules_of-delete resolved rows))
      | inr goes ↦ rw goes (rules_of-delete resolved rows)
    ]

-- The rules of which a test and another agree.
pub filter-agree :
    (p q : Rule → Bool) (rules : List Rule)
    → All (λ r. p r ≡ q r) rules
    → filter p rules ≡ filter q rules
filter-agree p q [] h = refl
filter-agree p q (r ∷ rs) (same, h) =
    rw same (ap (λ l. if q r then r ∷ l else l) (filter-agree p q rs h))

pub true_ne_false : {b : Bool} → b ≡ true → b ≡ false → ⊥
true_ne_false h k = cc

pub filter-All :
    (p : Rule → Bool) (rules : List Rule) → All (λ r. p r ≡ true) rules → filter p rules ≡ rules
filter-All p [] h = refl
filter-All p (r ∷ rs) (yes', h) = rw yes' (ap (λ l. r ∷ l) (filter-All p rs h))

pub rules_of-update :
    (objs rows : List CurrentReport) → rules_of (update_existing objs rows) ≡ rules_of rows
unfolding update_existing
rules_of-update [] rows = refl
rules_of-update (obj ∷ objs) rows = rules_of-update objs (update_rows obj rows) ∙ one rows
  where
    same_rule : (row : CurrentReport) → (update_row obj row).rule ≡ row.rule
    same_rule row = ground arith

    one : (rs : List CurrentReport) → rules_of (update_rows obj rs) ≡ rules_of rs
    one [] = refl
    one (row ∷ rs) =
        ap (λ r. r ∷ rules_of (update_rows obj rs)) (same_rule row)
        ∙ ap (λ l. row.rule ∷ l) (one rs)

pub bulk_create-append :
    (objs rows : List CurrentReport) {created : List CurrentReport}
    → bulk_create objs rows ≡ ok created
    → created ≡ rows ++ objs
unfolding bulk_create
bulk_create-append [] rows h = sym (ok-injective h) ∙ sym (append-nil rows)
bulk_create-append (obj ∷ objs) rows {created} h =
    go (has_rule obj.rule.id rows) h (bulk_create-append objs (rows ++ obj ∷ []))
  where
    go :
        (b : Bool)
        → (if b then err database_error else bulk_create objs (rows ++ obj ∷ [])) ≡ ok created
        → (bulk_create objs (rows ++ obj ∷ []) ≡ ok created → created ≡ (rows ++ obj ∷ []) ++ objs)
        → created ≡ rows ++ obj ∷ objs
    go true h rest = cc
    go false h rest = rest h ∙ append_assoc rows (obj ∷ []) objs

-- Nothing that is resolved is among the ids, and each stored rule is among the ids or resolved.
pub not_resolved :
    (ids : List String) (rows : List CurrentReport) (t : String)
    → contains t ids ≡ true
    → contains t (resolved_rule_ids ids rows) ≡ false
not_resolved ids [] t h = refl
not_resolved ids (row ∷ rows) t h =
    go (contains row.rule.rule_id ids) refl (not_resolved ids rows t h)
  where
    other : contains row.rule.rule_id ids ≡ false → (row.rule.rule_id == t) ≡ false
    other no_id =
        beq_of_ne row.rule.rule_id t
          λ same. true_ne_false h (ap (λ i. contains i ids) (sym same) ∙ no_id)

    go :
        (b : Bool)
        → contains row.rule.rule_id ids ≡ b
        → contains t (resolved_rule_ids ids rows) ≡ false
        → contains t (
            if b then resolved_rule_ids ids rows else row.rule.rule_id ∷ resolved_rule_ids ids rows)
          ≡ false
    go true e rest = rest
    go false e rest = rw (other e) rest

pub not_resolved-All :
    (ids : List String) (rows : List CurrentReport) (rs : List Rule)
    → All (λ r. among_ids ids r ≡ true) rs
    → All (λ (r : Rule). not (contains r.rule_id (resolved_rule_ids ids rows)) ≡ true) rs
not_resolved-All ids rows [] h = tt
not_resolved-All ids rows (r ∷ rs) (here, later) =
    (ap not (not_resolved ids rows r.rule_id here), not_resolved-All ids rows rs later)

pub resolved_later :
    (ids : List String) (row : CurrentReport) (rows : List CurrentReport) (t : String)
    → contains t (resolved_rule_ids ids rows) ≡ true
    → contains t (resolved_rule_ids ids (row ∷ rows)) ≡ true
resolved_later ids row rows t h = go (contains row.rule.rule_id ids)
  where
    go :
        (b : Bool)
        → contains t (
            if b then resolved_rule_ids ids rows else row.rule.rule_id ∷ resolved_rule_ids ids rows)
          ≡ true
    go true = h
    go false = ground (arith, h)

pub kept_or_resolved :
    (ids : List String) (rows all_rows : List CurrentReport)
    → ((t : String)
        → contains t (resolved_rule_ids ids rows) ≡ true
        → contains t (resolved_rule_ids ids all_rows) ≡ true)
    → All
        (λ (r : Rule). not (contains r.rule_id (resolved_rule_ids ids all_rows)) ≡ among_ids ids r)
        (rules_of rows)
kept_or_resolved ids [] all_rows later = tt
kept_or_resolved ids (row ∷ rows) all_rows later = (
  here (contains row.rule.rule_id ids) refl,
  kept_or_resolved ids rows all_rows (λ t h. later t (resolved_later ids row rows t h)),
)
  where
    here :
        (b : Bool)
        → contains row.rule.rule_id ids ≡ b
        → not (contains row.rule.rule_id (resolved_rule_ids ids all_rows))
          ≡ contains row.rule.rule_id ids
    here true e = rw (not_resolved ids all_rows row.rule.rule_id e) (sym e)
    here false e = rw (later row.rule.rule_id (rw e (rw (beq_self row.rule.rule_id) refl))) (sym e)

pub and_right : (a : Bool) {b : Bool} → (a && b) ≡ true → b ≡ true
and_right true h = h
and_right false h = cc
