-- ===== src/Tasks/Status/Summary.antt =====
-- The status of an executed task is the summary of the statuses of its jobs.
use advisor_backend.Common.{
  ℕ, Bool, true, false, ◌&&◌, List, [], ◌∷◌, if◌then◌else◌, nat_eq, ◌==◌, all, ◌≡◌, refl, ◌⊎◌, inl,
  inr, ◌↔◌, arith, Bool-cases, nat_beq_iff, All, beq_self, sym, ap, ◌∙◌,
}
use advisor_backend.Tasks.Models.{
  ExecutedTaskStatus, JobStatus, same_job_status, completed, completed_with_errors, success,
  timeout, job_value,
}
use advisor_backend.Tasks.Status.{has_status, finished_status}

abbrev pub Has : JobStatus → List JobStatus → Type 0
Has s [] = ⊥
Has s (x ∷ xs) = (x ≡ s) ⊎ Has s xs

-- What the status of an executed task says of its jobs.
abbrev pub IsSummary : List JobStatus → ExecutedTaskStatus → Type 0
IsSummary ss ExecutedTaskStatus.running = Has JobStatus.running ss
IsSummary ss ExecutedTaskStatus.cancelled =
    (¬ Has JobStatus.running ss) × Has JobStatus.cancelled ss
IsSummary ss completed = All (λ s. s ≡ success) ss
IsSummary ss completed_with_errors =
    (¬ Has JobStatus.running ss)
    × (¬ Has JobStatus.cancelled ss)
    × Has success ss
    × (Has JobStatus.failure ss ⊎ Has timeout ss)
IsSummary ss ExecutedTaskStatus.failure =
    (¬ Has JobStatus.running ss) × (¬ Has JobStatus.cancelled ss) × (¬ Has success ss)

of_value : ℕ → JobStatus
of_value n =
    if n == 1
    then JobStatus.running
    else if n == 2
    then success
    else if n == 3
    then JobStatus.failure
    else if n == 4
    then timeout
    else JobStatus.cancelled

of_value-job_value : (s : JobStatus) → of_value (job_value s) ≡ s
unfolding of_value
of_value-job_value JobStatus.running = refl
of_value-job_value success = refl
of_value-job_value JobStatus.failure = refl
of_value-job_value timeout = refl
of_value-job_value JobStatus.cancelled = refl

pub same_job-eq : (a b : JobStatus) → (same_job_status a b ≡ true) ↔ (b ≡ a)
same_job-eq a b = (
  λ same.
      sym (of_value-job_value b)
      ∙ ap of_value (sym ((nat_beq_iff (job_value a) (job_value b)).0 same))
      ∙ of_value-job_value a,
  λ e. rw e (beq_self (job_value a)),
)

pub has_status-Has : (s : JobStatus) (ss : List JobStatus) → has_status s ss ≡ true → Has s ss
has_status-Has s [] h = cc
has_status-Has s (x ∷ xs) h = elim (Bool-cases (same_job_status s x)) [
  | inl same ↦ inl ((same_job-eq s x).0 same)
  | inr other ↦ inr (has_status-Has s xs (ground (arith, other)))
]

Has-has_status : (s : JobStatus) (ss : List JobStatus) → Has s ss → has_status s ss ≡ true
Has-has_status s [] h = elim h [ ]
Has-has_status s (x ∷ xs) (inl same) = rw ((same_job-eq s x).1 same)
Has-has_status s (x ∷ xs) (inr later) = ground (arith, Has-has_status s xs later)

not-Has : (s : JobStatus) (ss : List JobStatus) → has_status s ss ≡ false → ¬ Has s ss
not-Has s ss h has = cc (Has-has_status s ss has)

all_success :
    (ss : List JobStatus) → all (same_job_status success) ss ≡ true → All (λ s. s ≡ success) ss
all_success [] h = tt
all_success (x ∷ xs) h = elim (Bool-cases (same_job_status success x)) [
  | inl same ↦ ((same_job-eq success x).0 same, all_success xs (ground (arith, same)))
  | inr other ↦ cc
]

-- Among jobs of which none runs and none is cancelled, not all have succeeded.
some_error :
    (ss : List JobStatus)
    → ¬ Has JobStatus.running ss
    → ¬ Has JobStatus.cancelled ss
    → all (same_job_status success) ss ≡ false
    → Has JobStatus.failure ss ⊎ Has timeout ss
some_error [] run can h = cc
some_error (JobStatus.running ∷ xs) run can h = absurd (run (inl refl))
some_error (success ∷ xs) run can h = elim (some_error xs (λ r. run (inr r)) (λ c. can (inr c)) h) [
  | inl f ↦ inl (inr f)
  | inr t ↦ inr (inr t)
]
some_error (JobStatus.failure ∷ xs) run can h = inl (inl refl)
some_error (timeout ∷ xs) run can h = inr (inl refl)
some_error (JobStatus.cancelled ∷ xs) run can h = absurd (can (inl refl))

pub finished_status-IsSummary :
    (ss : List JobStatus)
    → has_status JobStatus.running ss ≡ false
    → IsSummary ss (finished_status ss)
unfolding finished_status
finished_status-IsSummary ss no_running = go (has_status JobStatus.cancelled ss) refl
  where
    failed :
        (s : Bool) (a : Bool)
        → has_status success ss ≡ s
        → all (same_job_status success) ss ≡ a
        → has_status JobStatus.cancelled ss ≡ false
        → IsSummary ss (
            if s && a
            then completed
            else if s
            then completed_with_errors
            else ExecutedTaskStatus.failure)
    failed true true hs ha c = all_success ss ha
    failed true false hs ha c = (
      not-Has JobStatus.running ss no_running,
      not-Has JobStatus.cancelled ss c,
      has_status-Has success ss hs,
      some_error ss (not-Has JobStatus.running ss no_running) (not-Has JobStatus.cancelled ss c) ha,
    )
    failed false a hs ha c = (
      not-Has JobStatus.running ss no_running,
      not-Has JobStatus.cancelled ss c,
      not-Has success ss hs,
    )

    go :
        (c : Bool)
        → has_status JobStatus.cancelled ss ≡ c
        → IsSummary ss (
            if c
            then ExecutedTaskStatus.cancelled
            else if has_status success ss && all (same_job_status success) ss
            then completed
            else if has_status success ss
            then completed_with_errors
            else ExecutedTaskStatus.failure)
    go true h = (not-Has JobStatus.running ss no_running, has_status-Has JobStatus.cancelled ss h)
    go false h = failed (has_status success ss) (all (same_job_status success) ss) refl refl h
