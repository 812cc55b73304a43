-- ===== src/Tasks/Updates/Announced.antt =====
-- What an update of a job's status writes and sends.
use advisor_backend.Common.{
  ℕ, String, Bool, true, false, if◌then◌else◌, Option, none, some, List, [], ◌∷◌, ◌++◌, Exception,
  Result, other_error, ok, err, ◌≡◌, refl, ap, sym, ◌∙◌, ◌⊎◌, inl, inr, string_eq, append-nil,
  ok-injective,
}
use advisor_backend.Common.Actions.{Action, ◌>>=◌, ◌>>◌, pure, lift, query}
use advisor_backend.Common.Dict.{lookup}
use advisor_backend.Json.{JsonValue}
use advisor_backend.Tasks.Models.{
  JobStatus, ExecutedTask, Job, World, Event, same_job_status, save_job, find_task,
}
use advisor_backend.Tasks.Status.{update_executed_task_status}
use advisor_backend.Tasks.Status.Summary.{same_job-eq}
use advisor_backend.Tasks.Outside.{Outside}
use advisor_backend.Tasks.Updates.{
  event_type_for, task_of, job_event, with_status, updated_at, write_status, announce_job,
  announce_job_by, send_job_event, set_status, finish_update, update_job_status,
}

-- The job has the status: it had it and nothing was written, or its row was.
record IsWritten (outside : Outside) (job : Job) (new_status : JobStatus) (updated_on : JsonValue)
    (w : World) (job' : Job) (w' : World) : Type 0 where
  status : job'.status ≡ new_status
  kept : (w'.executed_tasks ≡ w.executed_tasks) × (w'.sent ≡ w.sent) × (w'.hosts ≡ w.hosts)
  written :
      ((job.status ≡ new_status) × (job' ≡ job) × (w'.jobs ≡ w.jobs))
      ⊎ ((t : Option ℕ) × (outside.parse_datetime updated_on ≡ ok t)
          × (job' ≡ with_status new_status (updated_at t w.now) job)
          × (w'.jobs ≡ save_job job' w.jobs))

pair_eq : {A B : Type 0} {a c : A} {b d : B} → ◌≡◌ {A = A × B} (a, b) (c, d) → (a ≡ c) × (b ≡ d)
pair_eq h = (ap (λ p. p.0) h, ap (λ p. p.1) h)

-- The events of the job itself: one where its system exists and it has come to an end.
abbrev pub job_events : Option String → Option String → Job → JobStatus → ExecutedTask → List Event
job_events none event_type job new_status extask = []
job_events (some display_name) none job new_status extask = []
job_events (some display_name) (some event_type) job new_status extask =
    job_event event_type extask job display_name new_status ∷ []

module _ (outside : Outside) (job : Job) (new_status : JobStatus) (updated_on : JsonValue)
    (w : World) where
  -- What a raise leaves: nothing is written where the time cannot be read, and else there is no
  -- executed task.
  abbrev pub IsRefused : World → Type 0
  IsRefused w' =
      ((e : Exception) × (outside.parse_datetime updated_on ≡ err e) × (w' ≡ w))
      ⊎ (find_task job.executed_task_id w.executed_tasks ≡ none)

  abbrev IsWrittenAt : Result Job × World → Type 0
  IsWrittenAt (ok job', w') = IsWritten outside job new_status updated_on w job' w'
  IsWrittenAt (err e, w') = IsRefused w'

  set_status-IsWritten : IsWrittenAt (set_status outside job new_status updated_on w)
  unfolding set_status write_status
  set_status-IsWritten = go (same_job_status job.status new_status) refl
    where
      parses :
          (r : Result (Option ℕ))
          → outside.parse_datetime updated_on ≡ r
          → IsWrittenAt (elim r [ ok t ↦ write_status job new_status t w | err e ↦ (err e, w) ])
      parses (ok t) e = record {
        status = refl;
        kept = (refl, refl, refl);
        written = inr (t, e, refl, refl);
      }
      parses (err x) e = inl (x, e, refl)

      go :
          (same : Bool)
          → same_job_status job.status new_status ≡ same
          → IsWrittenAt (
              (if same then pure job else (do
                t ← lift (outside.parse_datetime updated_on)
                write_status job new_status t))
                w)
      go true e =
          let equal = sym ((same_job-eq job.status new_status).0 e) in
          record { status = equal; kept = (refl, refl, refl); written = inl (equal, refl, refl) }
      go false e = parses (outside.parse_datetime updated_on) refl

  -- What an update that returns has done: it has set the status, has sent the events of the job, and has
  -- brought the executed task up to date.
  pub record IsAnnounced (job' : Job) (w' : World) : Type 0 where
    pub status : job'.status ≡ new_status
    pub extask : ExecutedTask
    pub found : find_task job.executed_task_id w.executed_tasks ≡ some extask
    pub announced : World
    pub updated : w' ≡ (update_executed_task_status extask (some job') true false announced).1
    pub same_tasks : announced.executed_tasks ≡ w.executed_tasks
    pub sent :
        announced.sent
        ≡ w.sent
          ++ job_events
              (lookup job.system_id w.hosts)
              (event_type_for job'.status)
              job'
              new_status
              extask
    pub written :
        ((job.status ≡ new_status) × (job' ≡ job) × (announced.jobs ≡ w.jobs))
        ⊎ ((t : Option ℕ) × (outside.parse_datetime updated_on ≡ ok t)
            × (job' ≡ with_status new_status (updated_at t w.now) job)
            × (announced.jobs ≡ save_job job' w.jobs))

  abbrev pub IsAnnouncedAt : Result Job × World → Type 0
  IsAnnouncedAt (ok job', w') = IsAnnounced job' w'
  IsAnnouncedAt (err e, w') = IsRefused w'

  same_ids :
      (job' : Job) (w' : World)
      → IsWritten outside job new_status updated_on w job' w'
      → (job'.system_id ≡ job.system_id) × (job'.executed_task_id ≡ job.executed_task_id)
  same_ids job' w' set = go set.written
    where
      go :
          ((job.status ≡ new_status) × (job' ≡ job) × (w'.jobs ≡ w.jobs))
            ⊎ ((t : Option ℕ) × (outside.parse_datetime updated_on ≡ ok t)
                × (job' ≡ with_status new_status (updated_at t w.now) job)
                × (w'.jobs ≡ save_job job' w.jobs))
          → (job'.system_id ≡ job.system_id) × (job'.executed_task_id ≡ job.executed_task_id)
      go (inl (s, same, j)) =
          (ap (λ (x : Job). x.system_id) same, ap (λ (x : Job). x.executed_task_id) same)
      go (inr (t, p, same, j)) =
          (ap (λ (x : Job). x.system_id) same, ap (λ (x : Job). x.executed_task_id) same)

  -- The rest of the update, by the host, the type of the event and the executed task.
  abbrev rest : Job → Action World Job
  rest job' = do
    announce_job job' new_status
    extask ← query (task_of job')
    finish_update job' extask

  module _ (job' : Job) (w₁ : World)
      (set : IsWritten outside job new_status updated_on w job' w₁) where
    same_row :
        find_task job.executed_task_id w.executed_tasks
        ≡ find_task job'.executed_task_id w₁.executed_tasks
    same_row =
        ap (λ i. find_task i w.executed_tasks) (sym (same_ids job' w₁ set).1)
        ∙ ap (find_task job'.executed_task_id) (sym set.kept.0)

    same_events :
        (extask : ExecutedTask)
        → w₁.sent
            ++ job_events
                (lookup job'.system_id w₁.hosts)
                (event_type_for job'.status)
                job'
                new_status
                extask
          ≡ w.sent
            ++ job_events
                (lookup job.system_id w.hosts)
                (event_type_for job'.status)
                job'
                new_status
                extask
    same_events extask =
        ap
          (λ s.
            s
            ++ job_events (lookup job'.system_id w₁.hosts) (event_type_for job'.status) job'
                new_status extask)
          set.kept.1
        ∙ ap
            (λ i.
              w.sent
              ++ job_events (lookup i w₁.hosts) (event_type_for job'.status) job' new_status extask)
            (same_ids job' w₁ set).0
        ∙ ap
            (λ h.
              w.sent
              ++ job_events (lookup job.system_id h) (event_type_for job'.status) job' new_status
                  extask)
            set.kept.2

    -- The look-up of the executed task, and its update.
    closing : Action World Job
    closing = do extask ← query (task_of job'); finish_update job' extask

    closing-IsAnnouncedAt :
        (w₂ : World)
        → w₂.executed_tasks ≡ w₁.executed_tasks
        → w₂.jobs ≡ w₁.jobs
        → ((extask : ExecutedTask)
            → find_task job'.executed_task_id w₁.executed_tasks ≡ some extask
            → w₂.sent
              ≡ w₁.sent
                ++ job_events
                    (lookup job'.system_id w₁.hosts)
                    (event_type_for job'.status)
                    job'
                    new_status
                    extask)
        → IsAnnouncedAt (closing w₂)
    unfolding closing finish_update
    closing-IsAnnouncedAt w₂ tasks jobs sent =
        go (find_task job'.executed_task_id w₂.executed_tasks) refl
      where
        here :
            (extask : ExecutedTask)
            → find_task job'.executed_task_id w₂.executed_tasks ≡ some extask
            → IsAnnounced job' (update_executed_task_status extask (some job') true false w₂).1
        here extask e = record {
          status = set.status;
          extask = extask;
          found = same_row ∙ ap (find_task job'.executed_task_id) (sym tasks) ∙ e;
          announced = w₂;
          updated = refl;
          same_tasks = tasks ∙ set.kept.0;
          sent =
              sent extask (ap (find_task job'.executed_task_id) (sym tasks) ∙ e)
              ∙ same_events extask;
          written = elim set.written [
            | inl (same, j, rows) ↦ inl (same, j, jobs ∙ rows)
            | inr (t, parsed, j, rows) ↦ inr (t, parsed, j, jobs ∙ rows)
          ];
        }

        go :
            (o : Option ExecutedTask)
            → find_task job'.executed_task_id w₂.executed_tasks ≡ o
            → IsAnnouncedAt (
                (lift (elim o [ none ↦ err other_error | some extask ↦ ok extask ]) >>= λ extask.
                finish_update job' extask)
                  w₂)
        go none e = inr (same_row ∙ (ap (find_task job'.executed_task_id) (sym tasks) ∙ e))
        go (some extask) e = here extask e

    found_task :
        {extask found : ExecutedTask}
        → task_of job' w₁ ≡ ok extask
        → find_task job'.executed_task_id w₁.executed_tasks ≡ some found
        → extask ≡ found
    found_task {extask} {found} e f = ok-injective (
        sym e
        ∙ ap (λ o. elim o as (λ _. Result ExecutedTask) [ none ↦ err other_error | some x ↦ ok x ])
            f)

    missing_task :
        {x : Exception}
        → task_of job' w₁ ≡ err x
        → find_task job'.executed_task_id w₁.executed_tasks ≡ none
    missing_task {x} = go (find_task job'.executed_task_id w₁.executed_tasks)
      where
        go :
            (o : Option ExecutedTask)
            → elim o as (λ _. Result ExecutedTask) [
              | none ↦ err other_error
              | some extask ↦ ok extask
            ]
              ≡ err x
            → o ≡ none
        go none h = refl
        go (some extask) h = cc

    announced-IsAnnouncedAt :
        (o ty : Option String) (t : Result ExecutedTask)
        → lookup job'.system_id w₁.hosts ≡ o
        → event_type_for job'.status ≡ ty
        → task_of job' w₁ ≡ t
        → IsAnnouncedAt ((announce_job_by o ty t job' new_status >>= λ _. closing) w₁)
    unfolding announce_job_by send_job_event
    announced-IsAnnouncedAt none ty t e f g =
        closing-IsAnnouncedAt w₁ refl refl λ extask found. rw e (sym (append-nil w₁.sent))
    announced-IsAnnouncedAt (some d) none t e f g =
        closing-IsAnnouncedAt w₁ refl refl λ extask found. rw e (rw f (sym (append-nil w₁.sent)))
    announced-IsAnnouncedAt (some d) (some ty) (err x) e f g = inr (same_row ∙ missing_task g)
    announced-IsAnnouncedAt (some d) (some ty) (ok extask) e f g =
        closing-IsAnnouncedAt _ refl refl λ other found.
          rw e
            (rw f (ap (λ x. w₁.sent ++ job_event ty x job' d new_status ∷ []) (found_task g found)))

  pub update_job-IsAnnounced : IsAnnouncedAt (update_job_status outside job new_status updated_on w)
  unfolding update_job_status announce_job announce_job_by closing
  update_job-IsAnnounced = go (set_status outside job new_status updated_on w) set_status-IsWritten
    where
      go :
          (r : Result Job × World)
          → IsWrittenAt r
          → IsAnnouncedAt (elim r.0 as (λ _. Result Job × World) [
            | ok job' ↦ rest job' r.1
            | err e ↦ (err e, r.1)
          ])
      go (ok job', w₁) set =
          announced-IsAnnouncedAt job' w₁ set (lookup job'.system_id w₁.hosts)
            (event_type_for job'.status) (task_of job' w₁) refl refl refl
      go (err e, w₁) refused = refused
