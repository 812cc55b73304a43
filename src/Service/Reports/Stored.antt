-- ===== src/Service/Reports/Stored.antt =====
-- Which rules have a report behind an upload.
use advisor_backend.Common.{
  ℕ, String, Bool, true, false, not, ◌&&◌, if◌then◌else◌, Option, none, some, List, [], ◌∷◌, ◌++◌,
  filter, contains, Result, ok, err, string_eq, nat_eq, ◌==◌, ◌≡◌, refl, ap, sym, ◌∙◌, subst, All,
  filter-append, ok-injective, ◌>>=◌, Exception, ◌⊎◌, inl, inr,
}
use advisor_backend.Service.Reports.{
  Report, Rule, CurrentReport, Settings, SortedReports, report_rule_ids, find_rule, has_rule,
  sort_report, sort_reports, add_report, report_obj, bulk_create, update_existing,
  resolved_rule_ids, delete_reports, write_report_objs, write_reports, create_db_reports,
  process_upload, end_transaction, send_inventory_view_event, view_event, count_reports, no_counts,
  Counts, ViewEvent, UploadWorld,
}
use advisor_backend.Service.Reports.Resolved.{
  rules_of, unless, with_rule, unstored, among_ids, rules_of-append, rules_of-delete, filter-agree,
  filter-All, rules_of-update, bulk_create-append, not_resolved-All, kept_or_resolved, and_right,
}

module _ (rules : List Rule) (upload now : ℕ) (account : Option String) where
  find_rule-among :
      (ids : List String) (rule_id : String) (rs : List Rule) {rule : Rule}
      → find_rule ids rule_id rs ≡ some rule
      → among_ids ids rule ≡ true
  unfolding find_rule
  find_rule-among ids rule_id [] h = cc
  find_rule-among ids rule_id (r ∷ rs) {rule} h =
      go (r.rule_id == rule_id && contains r.rule_id ids) refl h (find_rule-among ids rule_id rs)
    where
      go :
          (b : Bool)
          → (r.rule_id == rule_id && contains r.rule_id ids) ≡ b
          → (if b then some r else find_rule ids rule_id rs) ≡ some rule
          → (find_rule ids rule_id rs ≡ some rule → among_ids ids rule ≡ true)
          → among_ids ids rule ≡ true
      go true e same rest =
          subst (λ x. among_ids ids x ≡ true)
            (ap (λ o. elim o as (λ _. Rule) [ none ↦ r | some x ↦ x ]) same)
            (and_right (r.rule_id == rule_id) e)
      go false e found rest = rest found

  new_objs : List String → List CurrentReport → List Report → List CurrentReport
  new_objs ids rows reports =
      (sort_reports rules upload now account ids rows reports).new_report_objs

  rules_of-new :
      (ids : List String) (rows : List CurrentReport) (reports : List Report)
      → rules_of (new_objs ids rows reports) ≡ unstored rules ids rows reports
  unfolding new_objs sort_reports
  rules_of-new ids rows [] = refl
  rules_of-new ids rows (report ∷ reports) =
      go (find_rule ids report.rule_id rules)
        (sort_reports rules upload now account ids rows reports) (rules_of-new ids rows reports)
    where
      go :
          (o : Option Rule) (s : SortedReports) {rs : List Rule}
          → rules_of s.new_report_objs ≡ rs
          → rules_of (sort_report rules upload now account o report rows s).new_report_objs
            ≡ with_rule o rows rs
      go none s h = h
      go (some rule) s {rs} h = added (has_rule rule.id rows)
        where
          added :
              (b : Bool)
              → rules_of
                  (add_report b
                    (report_obj rules upload now account rule report rows)
                    s).new_report_objs
                ≡ unless b rule rs
          added true = h
          added false = ap (λ l. rule ∷ l) h

  unstored-among :
      (ids : List String) (rows : List CurrentReport) (reports : List Report)
      → All (λ r. among_ids ids r ≡ true) (unstored rules ids rows reports)
  unstored-among ids rows [] = tt
  unstored-among ids rows (report ∷ reports) =
      go (find_rule ids report.rule_id rules) refl (unstored-among ids rows reports)
    where
      go :
          (o : Option Rule)
          → find_rule ids report.rule_id rules ≡ o
          → All (λ r. among_ids ids r ≡ true) (unstored rules ids rows reports)
          → All (λ r. among_ids ids r ≡ true) (with_rule o rows (unstored rules ids rows reports))
      go none e h = h
      go (some rule) e h = added (has_rule rule.id rows)
        where
          added :
              (b : Bool)
              → All (λ r. among_ids ids r ≡ true) (unless b rule (unstored rules ids rows reports))
          added true = h
          added false = (find_rule-among ids report.rule_id rules e, h)

  deleted-rules :
      (ids : List String) (rows : List CurrentReport) (reports : List Report)
      (created : List CurrentReport)
      → created ≡ rows ++ new_objs ids rows reports
      → rules_of (
          delete_reports (resolved_rule_ids ids rows) (
            update_existing
              (sort_reports rules upload now account ids rows reports).existing_report_objs
              created))
        ≡ filter (among_ids ids) (rules_of rows) ++ unstored rules ids rows reports
  deleted-rules ids rows reports created e =
      let stays : Rule → Bool = λ r. not (contains r.rule_id (resolved_rule_ids ids rows)) in
      let objs = (sort_reports rules upload now account ids rows reports).existing_report_objs in
      rules_of-delete (resolved_rule_ids ids rows) (update_existing objs created)
      ∙ ap (filter stays) (
          rules_of-update objs created
          ∙ ap rules_of e
          ∙ rules_of-append rows (new_objs ids rows reports)
          ∙ ap (λ l. rules_of rows ++ l) (rules_of-new ids rows reports))
      ∙ filter-append stays (rules_of rows) (unstored rules ids rows reports)
      ∙ ap (λ l. l ++ filter stays (unstored rules ids rows reports))
          (filter-agree stays (among_ids ids) (rules_of rows)
            (kept_or_resolved ids rows rows (λ t h. h)))
      ∙ ap (λ l. filter (among_ids ids) (rules_of rows) ++ l)
          (filter-All stays (unstored rules ids rows reports) (
            not_resolved-All ids rows (unstored rules ids rows reports)
              (unstored-among ids rows reports)))

  write_reports-rules :
      (ids : List String) (rows : List CurrentReport) (reports : List Report)
      {rows' : List CurrentReport}
      → write_reports rules upload now account ids reports rows ≡ ok rows'
      → rules_of rows' ≡ filter (among_ids ids) (rules_of rows) ++ unstored rules ids rows reports
  unfolding write_reports write_report_objs new_objs
  write_reports-rules ids rows reports {rows'} h =
      go (bulk_create (new_objs ids rows reports) rows) refl h
    where
      objs : List CurrentReport
      objs = (sort_reports rules upload now account ids rows reports).existing_report_objs

      go :
          (r : Result (List CurrentReport))
          → bulk_create (new_objs ids rows reports) rows ≡ r
          → elim r as (λ _. Result (List CurrentReport)) [
            | err e ↦ err e
            | ok created ↦
                ok (delete_reports (resolved_rule_ids ids rows) (update_existing objs created))
          ]
            ≡ ok rows'
          → rules_of rows'
            ≡ filter (among_ids ids) (rules_of rows) ++ unstored rules ids rows reports
      go (err e) made h = cc
      go (ok created) made h =
          ap rules_of (sym (ok-injective h))
          ∙ deleted-rules ids rows reports created
              (bulk_create-append (new_objs ids rows reports) rows made)

module _ (rules : List Rule) (now : ℕ) (account : Option String) (disabled_rule_ids : List ℕ)
    (produces : ViewEvent → Bool) where
  -- The message of the upload is behind the earlier ones, where it is produced.
  abbrev pub IsTold : Result ℕ → List String → UploadWorld → List Report → UploadWorld → Type 0
  IsTold prepare ids w reports w' =
      (upload : ℕ) × (counts : Counts) × (prepare ≡ ok upload)
      × (count_reports rules ids disabled_rule_ids reports no_counts ≡ ok counts)
      × (w'.views
          ≡ send_inventory_view_event produces
              (view_event rules now account disabled_rule_ids produces ids reports w upload counts)
              w.views)

  -- What is stored and told behind an upload, by its answer.
  abbrev pub IsStored :
      Result ℕ
      → Result (Unit {0})
      → List String
      → UploadWorld
      → List Report
      → Bool × UploadWorld
      → Type 0
  IsStored prepare commit ids w reports (true, w') =
      (commit ≡ ok tt)
      × (rules_of w'.rows
          ≡ filter (among_ids ids) (rules_of w.rows) ++ unstored rules ids w.rows reports)
      × IsTold prepare ids w reports w'
  IsStored prepare commit ids w reports (false, w') =
      (w'.rows ≡ w.rows)
      × ((w'.views ≡ w.views)
          ⊎ ((e : Exception) × (commit ≡ err e) × IsTold prepare ids w reports w'))

  -- The block's world, before its commit.
  abbrev stored :
      List String → List Report → UploadWorld → ℕ → Counts → List CurrentReport → UploadWorld
  stored ids reports w upload counts rows = record {
    rows = rows;
    views =
        send_inventory_view_event produces
          (view_event rules now account disabled_rule_ids produces ids reports w upload counts)
          w.views;
  }

  process_upload-IsStored :
      (prepare : Result ℕ) (commit : Result (Unit {0})) (ids : List String) (reports : List Report)
      (w : UploadWorld) (upload : ℕ)
      → prepare ≡ ok upload
      → IsStored prepare commit ids w reports (
          end_transaction commit
            (process_upload rules now account disabled_rule_ids produces ids reports w upload)
            w)
  unfolding process_upload
  process_upload-IsStored prepare commit ids reports w upload prepared =
      counted (count_reports rules ids disabled_rule_ids reports no_counts) refl
    where
      committed :
          (counts : Counts) (rows : List CurrentReport) (end : Result (Unit {0}))
          → count_reports rules ids disabled_rule_ids reports no_counts ≡ ok counts
          → write_reports rules upload now account ids reports w.rows ≡ ok rows
          → IsStored prepare end ids w reports
              (end_transaction end (ok (stored ids reports w upload counts rows)) w)
      committed counts rows (ok u) c h = (
        refl,
        write_reports-rules rules upload now account ids w.rows reports h,
        (upload, counts, prepared, c, refl),
      )
      committed counts rows (err e) c h = (refl, inr (e, refl, (upload, counts, prepared, c, refl)))

      written :
          (counts : Counts) (r : Result (List CurrentReport))
          → count_reports rules ids disabled_rule_ids reports no_counts ≡ ok counts
          → write_reports rules upload now account ids reports w.rows ≡ r
          → IsStored prepare commit ids w reports (
              end_transaction commit (r >>= λ rows. ok (stored ids reports w upload counts rows)) w)
      written counts (err e) c h = (refl, inl refl)
      written counts (ok rows) c h = committed counts rows commit c h

      counted :
          (c : Result Counts)
          → count_reports rules ids disabled_rule_ids reports no_counts ≡ c
          → IsStored prepare commit ids w reports (
              end_transaction commit
                (c >>= λ counts.
                  write_reports rules upload now account ids reports w.rows >>= λ rows.
                  ok (stored ids reports w upload counts rows))
                w)
      counted (err e) h = (refl, inl refl)
      counted (ok counts) h =
          written counts (write_reports rules upload now account ids reports w.rows) h refl

  -- Where `create_db_reports` answers true, the transaction was committed, the rules that have a report
  -- of the host are those that had one and are among the rule ids that count, in order, and then those
  -- that the reports name, that are known and among these ids, and that had none; and the message to the
  -- inventory views, with the number of the reports and the counts of the rules, was sent where it can be
  -- produced. Where it answers false, the reports are as before, and no message is sent, except where
  -- the commit fails, which the message comes before.
  pub create_db_reports-IsStored :
      (prepare : Result ℕ) (commit : Result (Unit {0})) (s : Settings) (reports : List Report)
      (w : UploadWorld)
      → IsStored prepare commit (report_rule_ids s reports) w reports (
          create_db_reports rules now account disabled_rule_ids produces prepare commit s reports w)
  unfolding create_db_reports
  create_db_reports-IsStored (err e) commit s reports w = (refl, inl refl)
  create_db_reports-IsStored (ok upload) commit s reports w =
      process_upload-IsStored (ok upload) commit (report_rule_ids s reports) reports w upload refl
