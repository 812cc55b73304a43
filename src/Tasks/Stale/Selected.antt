-- ===== src/Tasks/Stale/Selected.antt =====
-- The rows that a query selects and that are saved.
use advisor_backend.Common.{
  ℕ, Bool, true, false, ◌&&◌, none, List, [], ◌∷◌, ◌++◌, filter, nat_eq, ◌==◌, All, ◌≡◌, refl, ◌⊎◌,
  inl, inr, any, if◌then◌else◌, arith, sym, subst, beq_self,
}
use advisor_backend.Tasks.Models.{JobStatus, Task, ExecutedTask, Job, World, save_job, update_job}
use advisor_backend.Tasks.Status.{
  update_executed_task_status, update_for, update_by_statuses, finish_task, keep_running,
  job_statuses,
}
use advisor_backend.Tasks.Stale.{is_stale}

pub All-append {ℓ κ} :
    {A : Type ℓ} (P : A → Type κ) (xs ys : List A) → All P xs → All P ys → All P (xs ++ ys)
All-append P [] ys h k = k
All-append P (x ∷ xs) ys h k = (h.0, All-append P xs ys h.1 k)

-- What holds of the rows whose id is another, and of the saved one.
pub All-save_job :
    (P : Job → Type 0) (j : Job) (rows : List Job)
    → All (λ (r : Job). ((r.id == j.id) ≡ true) ⊎ P r) rows
    → P j
    → All P (save_job j rows)
unfolding save_job
All-save_job P j rows h p = go (any (λ (r : Job). r.id == j.id) rows) refl
  where
    updated :
        (rs : List Job)
        → All (λ (r : Job). ((r.id == j.id) ≡ true) ⊎ P r) rs
        → All P (update_job j rs)
    updated [] h = tt
    updated (r ∷ rs) (inl same, later) = (rw same p, updated rs later)
    updated (r ∷ rs) (inr q, later) = (either (r.id == j.id), updated rs later)
      where
        either : (b : Bool) → P (if b then j else r)
        either true = p
        either false = q

    kept :
        (rs : List Job)
        → All (λ (r : Job). ((r.id == j.id) ≡ true) ⊎ P r) rs
        → any (λ (r : Job). r.id == j.id) rs ≡ false
        → All P rs
    kept [] h e = tt
    kept (r ∷ rs) (inl same, later) e = cc
    kept (r ∷ rs) (inr q, later) e = (q, kept rs later (ground arith))

    go :
        (b : Bool)
        → any (λ (r : Job). r.id == j.id) rows ≡ b
        → All P (if b then update_job j rows else rows ++ j ∷ [])
    go true e = updated rows h
    go false e = All-append P rows (j ∷ []) (kept rows h e) (p, tt)

-- The status of an executed task is no field of its jobs.
pub keeps_jobs :
    (extask : ExecutedTask) (send_message : Bool) (w : World)
    → (update_executed_task_status extask none send_message false w).1.jobs ≡ w.jobs
unfolding update_executed_task_status update_for update_by_statuses finish_task keep_running
keeps_jobs extask send_message w = go (job_statuses extask w.jobs)
  where
    go : (ss : List JobStatus) → (update_for extask none send_message false ss w).1.jobs ≡ w.jobs
    go [] = refl
    go (s ∷ ss) = ground arith

-- The job is none of the executed task's, does not run, or was updated within the time.
abbrev pub NotStale : Task → ℕ → ExecutedTask → Job → Type 0
NotStale task now extask job =
    ((job.executed_task_id == extask.id) && is_stale task now job) ≡ false

abbrev pub IsAmong : List Job → Job → Type 0
IsAmong js r = any (λ (j : Job). r.id == j.id) js ≡ true

pub All-imp {ℓ κ μ} :
    {A : Type ℓ} (P : A → Type κ) (Q : A → Type μ) (xs : List A)
    → ((x : A) → P x → Q x)
    → All P xs
    → All Q xs
All-imp P Q [] f h = tt
All-imp P Q (x ∷ xs) f h = (f x h.0, All-imp P Q xs f h.1)

pub not_among : (P : Job → Type 0) (r : Job) → IsAmong [] r ⊎ P r → P r
not_among P r (inl among) = cc
not_among P r (inr q) = q

-- Each stale job is among those that are selected.
pub selected :
    (p q : Job → Bool) (rows : List Job)
    → All (λ r. IsAmong (filter p (filter q rows)) r ⊎ ((q r && p r) ≡ false)) rows
selected p q [] = tt
selected p q (r ∷ rows) =
    subst (λ L. All (λ r'. IsAmong L r' ⊎ ((q r' && p r') ≡ false)) (r ∷ rows))
      (sym (filter_twice (q r) refl)) (go (q r && p r) refl (selected p q rows))
  where
    filter_twice :
        (b : Bool)
        → q r ≡ b
        → filter p (filter q (r ∷ rows))
          ≡ (if q r && p r then r ∷ filter p (filter q rows) else filter p (filter q rows))
    filter_twice true e = rw e refl
    filter_twice false e = rw e refl

    later :
        (j : Job)
        → IsAmong (filter p (filter q rows)) j ⊎ ((q j && p j) ≡ false)
        → IsAmong (r ∷ filter p (filter q rows)) j ⊎ ((q j && p j) ≡ false)
    later j (inl h) = inl (ground (arith, h))
    later j (inr h) = inr h

    go :
        (b : Bool)
        → (q r && p r) ≡ b
        → All (λ r'. IsAmong (filter p (filter q rows)) r' ⊎ ((q r' && p r') ≡ false)) rows
        → All
            (λ r'.
              IsAmong (if b then r ∷ filter p (filter q rows) else filter p (filter q rows)) r'
              ⊎ ((q r' && p r') ≡ false))
            (r ∷ rows)
    go true e ih = (
      inl (rw (beq_self r.id) refl),
      All-imp (λ r'. IsAmong (filter p (filter q rows)) r' ⊎ ((q r' && p r') ≡ false))
          (λ r'. IsAmong (r ∷ filter p (filter q rows)) r' ⊎ ((q r' && p r') ≡ false)) rows later
          ih,
    )
    go false e ih = (inr e, ih)
