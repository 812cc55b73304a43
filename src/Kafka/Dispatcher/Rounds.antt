-- ===== src/Kafka/Dispatcher/Rounds.antt =====
-- `_receive_batch`: when offsets are stored and committed, over any consumer.
use advisor_backend.Common.{
  ℕ, zero, suc, ◌≡◌, refl, Bool, true, false, Option, some, List, [], ◌∷◌, arith, if◌then◌else◌,
  Result, ok, err, ◌>>=◌, ok-injective, Exception, ◌⊎◌, inl, inr, subst,
}
use mathlib.Core.Option.{some-injective}
use advisor_backend.Kafka.Message.{Message, Codec}
use advisor_backend.Kafka.Consumer.{Consumer}
use advisor_backend.Kafka.Dispatcher.{
  Dispatcher, Process, commit_offsets, handle_batch_messages, finish_batch, batch_round,
  run_until_quit,
}

module _ {W C : Type 0} (codec : Codec) (consumer : Consumer C) (batch_size : ℕ) where
  -- The dispatcher after `consume` gave `c` and `quit`.
  abbrev waited : Dispatcher W C → C → Bool → Dispatcher W C
  waited d c quit = record d { process = record (d.process) { quit = quit }; consumer = c }

  abbrev consumed : Dispatcher W C → Result (List Message) × C × Bool
  consumed d = consumer.consume batch_size d.consumer d.process.quit

  abbrev handled : List Message → Dispatcher W C → Result (Bool × Process W)
  handled ms d = handle_batch_messages codec d.registered_handlers ms d.process

  -- The runs of the batch loop. Offsets are committed in a `committed` round only, for the messages of
  -- a batch that was handled with success; a batch that was not ends the run there.
  pub data BatchRun : Dispatcher W C → Dispatcher W C → Type 0 where
    over : {d : Dispatcher W C} → d.process.quit ≡ true → BatchRun d d
    idle :
        {d e : Dispatcher W C} {c : C} {quit : Bool} (r : Result (List Message))
        → consumed d ≡ (r, c, quit)
        → (r ≡ ok []) ⊎ ((x : Exception) × (r ≡ err x))
        → BatchRun (waited d c quit) e
        → BatchRun d e
    committed :
        {d e : Dispatcher W C} {c : C} {quit : Bool} {p : Process W} (m : Message)
        (ms : List Message)
        → consumed d ≡ (ok (m ∷ ms), c, quit)
        → handled (m ∷ ms) (waited d c quit) ≡ ok (true, p)
        → BatchRun (record d { process = p; consumer = commit_offsets consumer (m ∷ ms) c }) e
        → BatchRun d e
    stopped :
        {d : Dispatcher W C} {c : C} {quit : Bool} {p : Process W} (m : Message) (ms : List Message)
        → consumed d ≡ (ok (m ∷ ms), c, quit)
        → handled (m ∷ ms) (waited d c quit) ≡ ok (false, p)
        → BatchRun d (record d { process = record p { quit = true }; consumer = c })

  abbrev loop : ℕ → Dispatcher W C → Option (Result (Dispatcher W C))
  loop = run_until_quit (batch_round codec consumer batch_size)

  quit_stops :
      (fuel : ℕ) (d e : Dispatcher W C) → d.process.quit ≡ true → loop fuel d ≡ some (ok e) → d ≡ e
  unfolding run_until_quit
  quit_stops zero d e quits h = cc
  quit_stops (suc fuel) d e quits h = ground arith

  some_ok-injective : {d e : Dispatcher W C} → some (ok d) ≡ some (ok e) → d ≡ e
  some_ok-injective h = ok-injective (some-injective _ _ h)

  -- The rest of a run from the result of a round.
  abbrev goes_on : ℕ → Result (Dispatcher W C) → Option (Result (Dispatcher W C))
  goes_on fuel r = elim r [ ok d' ↦ loop fuel d' | err x ↦ some (err x) ]

  abbrev RunsFrom : ℕ → Dispatcher W C → Type 0
  RunsFrom fuel e = (d' : Dispatcher W C) → loop fuel d' ≡ some (ok e) → BatchRun d' e

  handled-BatchRun :
      (fuel : ℕ) (d e : Dispatcher W C) (c : C) (quit : Bool) (m : Message) (ms : List Message)
      → consumed d ≡ (ok (m ∷ ms), c, quit)
      → (r : Result (Bool × Process W)) → handled (m ∷ ms) (waited d c quit) ≡ r
      → RunsFrom fuel e
      → goes_on fuel (
          r >>= λ t.
          if t.0
          then ok (record d { process = t.1; consumer = commit_offsets consumer (m ∷ ms) c })
          else ok (record d { process = record (t.1) { quit = true }; consumer = c }))
        ≡ some (ok e)
      → BatchRun d e
  handled-BatchRun fuel d e c quit m ms took (ok (true, p)) done ih h =
      committed m ms took done (ih _ h)
  handled-BatchRun fuel d e c quit m ms took (ok (false, p)) done ih h =
      subst (BatchRun d) (quit_stops fuel _ e refl h) (stopped m ms took done)
  handled-BatchRun fuel d e c quit m ms took (err x) done ih h = cc

  consumed-BatchRun :
      (fuel : ℕ) (d e : Dispatcher W C) (r : Result (List Message) × C × Bool)
      → consumed d ≡ r
      → RunsFrom fuel e
      → goes_on fuel (elim r.0 [
        | ok ms ↦ finish_batch codec consumer ms (waited d r.1 r.2)
        | err x ↦ ok (waited d r.1 r.2)
      ])
        ≡ some (ok e)
      → BatchRun d e
  unfolding finish_batch
  consumed-BatchRun fuel d e (ok [], c, quit) took ih h = idle (ok []) took (inl refl) (ih _ h)
  consumed-BatchRun fuel d e (ok (m ∷ ms), c, quit) took ih h =
      handled-BatchRun fuel d e c quit m ms took (handled (m ∷ ms) (waited d c quit)) refl ih h
  consumed-BatchRun fuel d e (err x, c, quit) took ih h = idle (err x) took (inr (x, refl)) (ih _ h)

  -- Whatever the consumer and the handlers do, a batch loop that returns has followed `BatchRun`: it
  -- commits only behind a batch whose handler calls all succeeded, and the first failing batch ends
  -- it, with the consumer left as `consume` gave it.
  pub loop-BatchRun : (fuel : ℕ) (d e : Dispatcher W C) → loop fuel d ≡ some (ok e) → BatchRun d e
  unfolding run_until_quit batch_round
  loop-BatchRun zero d e h = cc
  loop-BatchRun (suc fuel) d e h = go d.process.quit refl (loop-BatchRun fuel) h
    where
      go :
          (b : Bool)
          → d.process.quit ≡ b
          → ((d' e' : Dispatcher W C) → loop fuel d' ≡ some (ok e') → BatchRun d' e')
          → elim b [
            | true ↦ some (ok d)
            | false ↦ goes_on fuel (batch_round codec consumer batch_size d)
          ]
            ≡ some (ok e)
          → BatchRun d e
      go true quits ih h = subst (BatchRun d) (some_ok-injective h) (over quits)
      go false goes ih h = consumed-BatchRun fuel d e (consumed d) refl (λ d'. ih d' e) h
