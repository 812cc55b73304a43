-- ===== src/Service/Reports.antt =====
-- The reports that `create_db_reports` of service/service.py writes for one host, and the counts of
-- service/inventory_view.py. The rows are those of the host and its organisation; `Report` is an entry
-- of the engine's reports with both its keys. The hooks for the webhooks are left out.
pub mod Resolved
pub mod Stored
use advisor_backend.Common.{
  ℕ, suc, ◌+◌, String, Bool, true, false, not, ◌&&◌, if◌then◌else◌, Option, none, some, List, [],
  ◌∷◌, ◌++◌, filter, any, contains, Result, ok, err, database_error, index_error, ◌>>=◌, length,
  string_eq, nat_eq, ◌==◌,
}
use advisor_backend.Json.{JsonValue}

pub record Report : Type 0 where
  pub rule_id : String
  pub details : JsonValue

pub record Rule : Type 0 where
  pub id : ℕ
  pub rule_id : String
  pub total_risk : ℕ
  pub has_incident : Bool

pub record CurrentReport : Type 0 where
  pub rule : Rule
  pub upload : ℕ
  pub account : Option String
  pub details : JsonValue
  pub impacted_date : Option ℕ

pub record Settings : Type 0 where
  pub filter_out_non_rhel : Bool
  pub filter_out_non_rhel_rule_id : List String
  pub filter_out_rhel6 : Bool
  pub filter_out_rhel6_rule_ids : List String

abbrev pub rule_ids : List Report → List String
rule_ids [] = []
rule_ids (r ∷ rs) = r.rule_id ∷ rule_ids rs

-- Where a rule for systems that are not RHEL is reported, only those rules count.
unfoldable pub non_rhel_filter : Settings → List String → List String
non_rhel_filter s ids =
    if s.filter_out_non_rhel && any (λ i. contains i s.filter_out_non_rhel_rule_id) ids
    then s.filter_out_non_rhel_rule_id
    else ids

-- reported_rhel6_rules, if any, or the ids
abbrev pub if_any : List String → List String → List String
if_any [] ids = ids
if_any (r ∷ reported) ids = r ∷ reported

-- The intersection of two sets, whose order is left as that of the ids.
unfoldable pub rhel6_filter : Settings → List String → List String
rhel6_filter s ids =
    if s.filter_out_rhel6
    then if_any (filter (λ i. contains i s.filter_out_rhel6_rule_ids) ids) ids
    else ids

unfoldable pub report_rule_ids : Settings → List Report → List String
report_rule_ids s reports = rhel6_filter s (non_rhel_filter s (rule_ids reports))

-- report_rules_map.get(rule_id), over the rules of the database with one of the ids
unfoldable pub find_rule : List String → String → List Rule → Option Rule
find_rule ids rule_id [] = none
find_rule ids rule_id (rule ∷ rules) =
    if rule.rule_id == rule_id && contains rule.rule_id ids
    then some rule
    else find_rule ids rule_id rules

abbrev pub has_rule : ℕ → List CurrentReport → Bool
has_rule id rows = any (λ (row : CurrentReport). row.rule.id == id) rows

abbrev pub date_or : Option ℕ → ℕ → Option ℕ
date_or none now = some now
date_or (some t) now = some t

-- The date of the first stored report of the rule, or now.
abbrev pub impacted_date_of : ℕ → ℕ → List CurrentReport → Option ℕ
impacted_date_of id now [] = some now
impacted_date_of id now (row ∷ rows) =
    if row.rule.id == id then date_or row.impacted_date now else impacted_date_of id now rows

-- The reports that are new, those that are there already, and the number without a rule.
pub record SortedReports : Type 0 where
  pub new_report_objs : List CurrentReport
  pub existing_report_objs : List CurrentReport
  pub missing_content : ℕ

abbrev pub count_missing_content : SortedReports → SortedReports
count_missing_content s = record s { missing_content = suc s.missing_content }

abbrev pub add_report : Bool → CurrentReport → SortedReports → SortedReports
add_report true obj s = record s { existing_report_objs = obj ∷ s.existing_report_objs }
add_report false obj s = record s { new_report_objs = obj ∷ s.new_report_objs }

abbrev pub same_account : Option String → Option String → Bool
same_account none none = true
same_account (some a) (some b) = a == b
same_account _ _ = false

-- bulk_create: a rule has one row for a host
unfoldable pub bulk_create : List CurrentReport → List CurrentReport → Result (List CurrentReport)
bulk_create [] rows = ok rows
bulk_create (obj ∷ objs) rows =
    let rest = bulk_create objs (rows ++ obj ∷ []) in
    if has_rule obj.rule.id rows then err database_error else rest

-- filter(rule_id, host_id, account, org_id).update(upload, details, impacted_date)
abbrev pub update_row : CurrentReport → CurrentReport → CurrentReport
update_row obj row =
    if row.rule.id == obj.rule.id && same_account row.account obj.account
    then record row {
      upload = obj.upload;
      details = obj.details;
      impacted_date = obj.impacted_date;
    }
    else row

abbrev pub update_rows : CurrentReport → List CurrentReport → List CurrentReport
update_rows obj [] = []
update_rows obj (row ∷ rows) = update_row obj row ∷ update_rows obj rows

unfoldable pub update_existing : List CurrentReport → List CurrentReport → List CurrentReport
update_existing [] rows = rows
update_existing (obj ∷ objs) rows = update_existing objs (update_rows obj rows)

-- delete_db_reports, from the rows as they were, and their deletion
abbrev pub resolved_rule_ids : List String → List CurrentReport → List String
resolved_rule_ids ids [] = []
resolved_rule_ids ids (row ∷ rows) =
    if contains row.rule.rule_id ids
    then resolved_rule_ids ids rows
    else row.rule.rule_id ∷ resolved_rule_ids ids rows

abbrev pub delete_reports : List String → List CurrentReport → List CurrentReport
delete_reports resolved rows =
    filter (λ (row : CurrentReport). not (contains row.rule.rule_id resolved)) rows

unfoldable pub write_report_objs :
    List String → SortedReports → List CurrentReport → Result (List CurrentReport)
write_report_objs ids s rows = elim (bulk_create s.new_report_objs rows) [
  | err e ↦ err e
  | ok created ↦
      ok (
        delete_reports (resolved_rule_ids ids rows)
          (update_existing s.existing_report_objs created))
]

module _ (rules : List Rule) (upload now : ℕ) (account : Option String) where
  abbrev pub report_obj : Rule → Report → List CurrentReport → CurrentReport
  report_obj rule report rows = record {
    rule = rule;
    upload = upload;
    account = account;
    details = report.details;
    impacted_date = impacted_date_of rule.id now rows;
  }

  -- One pass of the loop over the reports, in front of what the later ones give.
  abbrev pub sort_report : Option Rule → Report → List CurrentReport → SortedReports → SortedReports
  sort_report none report rows s = count_missing_content s
  sort_report (some rule) report rows s =
      add_report (has_rule rule.id rows) (report_obj rule report rows) s

  unfoldable pub sort_reports : List String → List CurrentReport → List Report → SortedReports
  sort_reports ids rows [] = record {
    new_report_objs = [];
    existing_report_objs = [];
    missing_content = 0;
  }
  sort_reports ids rows (report ∷ reports) =
      sort_report (find_rule ids report.rule_id rules) report rows (sort_reports ids rows reports)

  unfoldable pub write_reports :
      List String → List Report → List CurrentReport → Result (List CurrentReport)
  write_reports ids reports rows = write_report_objs ids (sort_reports ids rows reports) rows

  abbrev pub num_report_objs : List String → List Report → List CurrentReport → ℕ
  num_report_objs ids reports rows =
      length (sort_reports ids rows reports).new_report_objs
      + length (sort_reports ids rows reports).existing_report_objs

-- update_inventory_view_counts of service/inventory_view.py
pub record Counts : Type 0 where
  pub incidents : ℕ
  pub critical : ℕ
  pub important : ℕ
  pub moderate : ℕ
  pub low : ℕ

abbrev pub count_incident : Rule → Counts → Counts
count_incident rule c = if rule.has_incident then record c { incidents = c.incidents + 1 } else c

-- _rule_risks[total_risk], which has five entries and none for 0
unfoldable pub count_severity : ℕ → Counts → Result Counts
count_severity risk c =
    if risk == 0
    then ok c
    else if risk == 1
    then ok (record c { low = c.low + 1 })
    else if risk == 2
    then ok (record c { moderate = c.moderate + 1 })
    else if risk == 3
    then ok (record c { important = c.important + 1 })
    else if risk == 4
    then ok (record c { critical = c.critical + 1 })
    else err index_error

unfoldable pub update_inventory_view_counts : Rule → Counts → Result Counts
update_inventory_view_counts rule c = count_severity rule.total_risk (count_incident rule c)

-- Of the rules of the reports, those that are not disabled for the host or its organisation.
abbrev pub count_rule : List ℕ → Option Rule → Counts → Result Counts
count_rule disabled_rule_ids none c = ok c
count_rule disabled_rule_ids (some rule) c =
    if contains rule.id disabled_rule_ids then ok c else update_inventory_view_counts rule c

unfoldable pub count_reports :
    List Rule → List String → List ℕ → List Report → Counts → Result Counts
count_reports rules ids disabled_rule_ids [] c = ok c
count_reports rules ids disabled_rule_ids (report ∷ reports) c = do
  c' ← count_rule disabled_rule_ids (find_rule ids report.rule_id rules) c
  count_reports rules ids disabled_rule_ids reports c'

abbrev pub no_counts : Counts
no_counts = record { incidents = 0; critical = 0; important = 0; moderate = 0; low = 0 }

-- The message to the inventory views.
pub record ViewEvent : Type 0 where
  pub recommendations : ℕ
  pub counts : Counts

-- The reports of the host, and the messages that were produced.
pub record UploadWorld : Type 0 where
  pub rows : List CurrentReport
  pub views : List ViewEvent

-- send_inventory_view_event, which swallows its exceptions; `produces` says whether the message is
-- produced, which it is not without a producer or a topic, or where an exception comes first.
abbrev pub send_inventory_view_event :
    (ViewEvent → Bool) → ViewEvent → List ViewEvent → List ViewEvent
send_inventory_view_event produces event views =
    if produces event then views ++ event ∷ [] else views

-- The end of the transaction and the answer: a block that raised is rolled back, and so is one whose
-- commit fails, behind which its message stays.
abbrev pub end_transaction :
    Result (Unit {0}) → Result UploadWorld → UploadWorld → Bool × UploadWorld
end_transaction commit (err e) w = (false, w)
end_transaction (err e) (ok w') w = (false, record w { views = w'.views })
end_transaction (ok u) (ok w') w = (true, w')

module _ (rules : List Rule) (now : ℕ) (account : Option String) (disabled_rule_ids : List ℕ)
    (produces : ViewEvent → Bool) where
  abbrev pub view_event : List String → List Report → UploadWorld → ℕ → Counts → ViewEvent
  view_event ids reports w upload counts = record {
    recommendations = num_report_objs rules upload now account ids reports w.rows;
    counts = counts;
  }

  -- The block with the upload: what it stores and tells, or what it raises.
  unfoldable pub process_upload : List String → List Report → UploadWorld → ℕ → Result UploadWorld
  process_upload ids reports w upload = do
    counts ← count_reports rules ids disabled_rule_ids reports no_counts
    rows ← write_reports rules upload now account ids reports w.rows
    ok (record {
      rows = rows;
      views = send_inventory_view_event produces (view_event ids reports w upload counts) w.views;
    })

  -- `prepare` is what comes first: the host is written and locked, and the upload is, whose id it gives.
  -- `commit` is the commit of the transaction.
  unfoldable pub create_db_reports :
      (prepare : Result ℕ)
      → (commit : Result (Unit {0})) → Settings
      → List Report
      → UploadWorld
      → Bool × UploadWorld
  create_db_reports prepare commit s reports w =
      end_transaction commit (prepare >>= process_upload (report_rule_ids s reports) reports w) w
