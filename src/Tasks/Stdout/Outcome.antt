-- ===== src/Tasks/Stdout/Outcome.antt =====
-- What becomes of a job whose output is parsed.
use advisor_backend.Common.{
  String, Bool, true, false, Result, ok, err, Exception, type_error, ◌≡◌, refl, ◌⊎◌, inl, inr,
  if◌then◌else◌, ap, sym, ◌∙◌,
}
use advisor_backend.Json.{JsonValue, null, bool, num, str, arr, obj, contains_str}
use advisor_backend.Tasks.Models.{JobStatus, Job, LogLine, World, success, not_parsed, save_job}
use advisor_backend.Tasks.Outside.{Outside}
use advisor_backend.Tasks.Stdout.{
  TaskType, Section, missing, found, stdout_section, with_alert, accept_results, load_results,
  fail_with, get_results, save_results, save_stdout, with_stdout, parse_json_from_stdout, is_true,
  error_results,
}

-- Results that can be kept: an object, or a list or a text that contains 'alert'.
abbrev pub IsKept : JsonValue → Type 0
IsKept (obj fs) = Unit
IsKept v = contains_str "alert" v ≡ ok true

not_loaded : {r : Result JsonValue} {e : Exception} {v : JsonValue} → r ≡ err e → r ≡ ok v → ⊥
not_loaded h k = cc

missing_found : {line : LogLine} {text : String} → missing line ≡ found text → ⊥
missing_found h = cc

found_text : Section → String
found_text (missing line) = String.[]
found_text (found text) = text

same_text : {s t : String} → found s ≡ found t → s ≡ t
unfolding found_text
same_text h = ap found_text h

module _ (outside : Outside) where
  -- The output has a section that is the JSON of `v`.
  abbrev pub Loads : TaskType → String → JsonValue → Type 0
  Loads task_type stdout v =
      (text : String) × (stdout_section outside task_type stdout ≡ found text)
      × (outside.loads text ≡ ok v)

  -- The job behind the call, with its output.
  abbrev pub parsed_job : Job → String → JobStatus → JsonValue → Job
  parsed_job job stdout status results = record job {
    stdout = stdout;
    status = status;
    results = results;
  }

  -- The job holds the results of the section, with their 'alert'.
  abbrev pub HasResults : Job → String → TaskType → Job → Type 0
  HasResults job stdout task_type job' =
      (v : JsonValue) × (results : JsonValue) × Loads task_type stdout v
      × IsKept v
      × (with_alert v ≡ ok results)
      × (job' ≡ parsed_job job stdout success results)

  -- Why there is no section of JSON: a delimiter is missing, or the text between them is no JSON.
  abbrev pub IsReason : TaskType → String → LogLine → Type 0
  IsReason task_type stdout line =
      (stdout_section outside task_type stdout ≡ missing line)
      ⊎ ((line ≡ not_parsed)
          × ((text : String) × (e : Exception) × (stdout_section outside task_type stdout
                ≡ found text)
              × (outside.loads text ≡ err e)))

  -- The job holds results that tell of the reason.
  abbrev pub HasFailed : Job → String → TaskType → Job → Type 0
  HasFailed job stdout task_type job' =
      ((v : JsonValue) → ¬ Loads task_type stdout v)
      × ((line : LogLine) × IsReason task_type stdout line
          × (job' ≡ parsed_job job stdout JobStatus.failure (error_results outside line)))

  -- The rows behind a call that gives `r`.
  abbrev pub IsParsed : Job → String → TaskType → World → Result Job × World → Type 0
  IsParsed job stdout task_type w (ok job', w') =
      (w'.jobs ≡ save_job job' (save_job (with_stdout stdout job) w.jobs))
      × (w'.executed_tasks ≡ w.executed_tasks)
      × (w'.sent ≡ w.sent)
      × (HasResults job stdout task_type job' ⊎ HasFailed job stdout task_type job')
  IsParsed job stdout task_type w (err e, w') =
      (w'.jobs ≡ save_job (with_stdout stdout job) w.jobs)
      × (w'.executed_tasks ≡ w.executed_tasks)
      × (e ≡ type_error)
      × ((v : JsonValue) × Loads task_type stdout v × (¬ IsKept v))

  -- Whether the results are kept decides it.
  data AlertCase (v : JsonValue) : Result JsonValue → Type 0 where
    kept : (results : JsonValue) → IsKept v → AlertCase v (ok results)
    refused : (¬ IsKept v) → AlertCase v (err type_error)

  by_test :
      (v : JsonValue) (r : Result Bool)
      → ((r ≡ ok true) → IsKept v)
      → (IsKept v → r ≡ ok true)
      → AlertCase v (if is_true r then ok v else err type_error)
  by_test v (ok true) to from = kept v (to refl)
  by_test v (ok false) to from = refused (λ h. let e = from h in cc)
  by_test v (err x) to from = refused (λ h. let e = from h in cc)

  with_alert-case : (v : JsonValue) → AlertCase v (with_alert v)
  unfolding with_alert
  with_alert-case (obj fs) = kept _ tt
  with_alert-case null = by_test null (contains_str "alert" null) (λ h. h) (λ h. h)
  with_alert-case (bool b) = by_test (bool b) (contains_str "alert" (bool b)) (λ h. h) (λ h. h)
  with_alert-case (num z) = by_test (num z) (contains_str "alert" (num z)) (λ h. h) (λ h. h)
  with_alert-case (str s) = by_test (str s) (contains_str "alert" (str s)) (λ h. h) (λ h. h)
  with_alert-case (arr vs) = by_test (arr vs) (contains_str "alert" (arr vs)) (λ h. h) (λ h. h)

  module _ (job : Job) (stdout : String) (task_type : TaskType) (w : World) where
    -- The behaviour of each outcome.
    abbrev ParsedOutcome : Result (JobStatus × JsonValue) × World → Type 0
    ParsedOutcome r = IsParsed job stdout task_type w (save_results (with_stdout stdout job) r)

    accepted :
        (v : JsonValue) (r : Result JsonValue)
        → Loads task_type stdout v
        → with_alert v ≡ r
        → AlertCase v r
        → ParsedOutcome
            (accept_results (with_stdout stdout job) r (save_stdout task_type stdout job w))
    unfolding accept_results
    accepted v r loads alert (kept results h) =
        (refl, refl, refl, inl (v, results, loads, h, alert, refl))
    accepted v r loads alert (refused h) = (refl, refl, refl, (v, loads, h))

    failed :
        (line : LogLine)
        → IsReason task_type stdout line
        → ((v : JsonValue) → ¬ Loads task_type stdout v)
        → ParsedOutcome
            (fail_with outside (with_stdout stdout job) line (save_stdout task_type stdout job w))
    unfolding fail_with
    failed line reason never = (refl, refl, refl, inr (never, (line, reason, refl)))

    loaded :
        (text : String) (r : Result JsonValue)
        → stdout_section outside task_type stdout ≡ found text
        → outside.loads text ≡ r
        → ParsedOutcome
            (load_results outside (with_stdout stdout job) r (save_stdout task_type stdout job w))
    unfolding load_results
    loaded text (ok v) here e = accepted v (with_alert v) (text, here, e) refl (with_alert-case v)
    loaded text (err x) here e =
        failed not_parsed (inr (refl, (text, x, here, e)))
          λ v (other, there, f). not_loaded e (ap outside.loads (same_text (sym here ∙ there)) ∙ f)

    outcome :
        (section : Section)
        → stdout_section outside task_type stdout ≡ section
        → ParsedOutcome (
            get_results outside
              (with_stdout stdout job)
              section
              (save_stdout task_type stdout job w))
    unfolding get_results
    outcome (missing line) here =
        failed line (inl here) (λ v (text, there, f). missing_found (sym here ∙ there))
    outcome (found text) here = loaded text (outside.loads text) here refl

pub parse_json-IsParsed :
    (outside : Outside) (job : Job) (stdout : String) (task_type : TaskType) (w : World)
    → IsParsed outside job stdout task_type w
        (parse_json_from_stdout outside job stdout task_type w)
unfolding parse_json_from_stdout
parse_json-IsParsed outside job stdout task_type w =
    outcome outside job stdout task_type w (stdout_section outside task_type stdout) refl
