-- ===== src/Kafka/Dispatcher/Stopping.antt =====
-- The receive loop over `DummyConsumer` ends.
use advisor_backend.Common.{
  ℕ, zero, suc, ◌+◌, ◌≤◌, ◌<◌, ◌≡◌, refl, Bool, true, false, Option, none, some, List, [], ◌∷◌,
  arith, ◌⊎◌, inl, inr, if◌then◌else◌, Result, ok, err, length, string_eq, ok-injective, ◌>>=◌,
}
use mathlib.Core.List.{cons≢nil}
use advisor_backend.Kafka.Message.{Message, Codec}
use advisor_backend.Kafka.Consumer.{DummyConsumer, poll, consume, dummy_consumer}
use advisor_backend.Kafka.Dispatcher.{
  Dispatcher, Process, commit_offsets, finish_batch, batch_round, single_round, run_until_quit,
  receive_round, subscribed, receive, close_after, prepare_message, handle_message,
  handle_batch_messages,
}
use advisor_backend.Kafka.Dispatcher.Consuming.{
  room, AsksToQuit, Progress, poll_progress, consume-Progress, commit_offsets-dummy,
}

-- A bound on the rounds that are left.
abbrev rounds_left : {W : Type 0} → Dispatcher W DummyConsumer → ℕ
rounds_left d = if d.process.quit then 0 else room d.consumer

-- A round from `d` raises, or leaves fewer rounds.
abbrev Descends :
    {W : Type 0} → Dispatcher W DummyConsumer → Result (Dispatcher W DummyConsumer) → Type 0
Descends d (ok d') = AsksToQuit d'.consumer × (rounds_left d' < rounds_left d)
Descends d (err e) = Unit

run_until_quit_ends :
    {W : Type 0} (body : Dispatcher W DummyConsumer → Result (Dispatcher W DummyConsumer))
    → ((d : Dispatcher W DummyConsumer)
        → AsksToQuit d.consumer
        → d.process.quit ≡ false
        → Descends d (body d))
    → (fuel : ℕ) (d : Dispatcher W DummyConsumer) → AsksToQuit d.consumer
    → rounds_left d < fuel
    → (r : Result (Dispatcher W DummyConsumer)) × (run_until_quit body fuel d ≡ some r)
unfolding run_until_quit
run_until_quit_ends body step zero d asks h = elim h [ ]
run_until_quit_ends {W} body step (suc fuel) d asks h =
    go d.process.quit refl (run_until_quit_ends body step fuel)
  where
    Ends : Option (Result (Dispatcher W DummyConsumer)) → Type 0
    Ends o = (r : Result (Dispatcher W DummyConsumer)) × (o ≡ some r)

    round :
        (r : Result (Dispatcher W DummyConsumer))
        → Descends d r
        → ((d' : Dispatcher W DummyConsumer)
            → AsksToQuit d'.consumer
            → rounds_left d' < fuel
            → Ends (run_until_quit body fuel d'))
        → Ends (elim r [ ok d' ↦ run_until_quit body fuel d' | err e ↦ some (err e) ])
    round (ok d') (asks', less) ih = ih d' asks' (omega arith)
    round (err e) less ih = (err e, refl)

    go :
        (b : Bool)
        → d.process.quit ≡ b
        → ((d' : Dispatcher W DummyConsumer)
            → AsksToQuit d'.consumer
            → rounds_left d' < fuel
            → Ends (run_until_quit body fuel d'))
        → Ends (elim b [
          | true ↦ some (ok d)
          | false ↦ elim (body d) [ ok d' ↦ run_until_quit body fuel d' | err e ↦ some (err e) ]
        ])
    go true e ih = (ok d, refl)
    go false e ih = round (body d) (step d asks e) ih

-- A batch size is at least 1, where there is one.
abbrev pub IsPositive : Option ℕ → Type 0
IsPositive none = Unit
IsPositive (some batch_size) = 0 < batch_size

module _ {W : Type 0} (codec : Codec) where
  finish_batch-Descends :
      (ms : List Message) (d d₀ : Dispatcher W DummyConsumer)
      → AsksToQuit d.consumer
      → (room d.consumer < rounds_left d₀)
        ⊎ ((ms ≡ []) × (d.process.quit ≡ true) × (0 < rounds_left d₀))
      → Descends d₀ (finish_batch codec dummy_consumer ms d)
  unfolding finish_batch
  finish_batch-Descends [] d d₀ asks h = ground arith
  finish_batch-Descends (m ∷ ms) d d₀ asks h =
      go (handle_batch_messages codec d.registered_handlers (m ∷ ms) d.process) less
    where
      less : room d.consumer < rounds_left d₀
      less = elim h [ inl l ↦ l | inr (e, _, _) ↦ absurd (cons≢nil e) ]

      go :
          (r : Result (Bool × Process W))
          → room d.consumer < rounds_left d₀
          → Descends d₀ (
              r >>= λ handled.
              if handled.0
              then ok (record d {
                process = handled.1;
                consumer = commit_offsets dummy_consumer (m ∷ ms) d.consumer;
              })
              else ok (record d { process = record (handled.1) { quit = true } }))
      go (ok (true, p)) l = rw (commit_offsets-dummy (m ∷ ms) d.consumer) (asks, ground arith)
      go (ok (false, p)) l = (asks, omega arith)
      go (err e) l = tt

  batch_round-Descends :
      (b : ℕ) (d : Dispatcher W DummyConsumer)
      → AsksToQuit d.consumer
      → d.process.quit ≡ false
      → Descends d (batch_round codec dummy_consumer (suc b) d)
  unfolding batch_round
  batch_round-Descends b d asks goes =
      go (consume (suc b) d.consumer d.process.quit)
        (consume-Progress b d.consumer d.process.quit asks)
    where
      go :
          (r : Result (List Message) × DummyConsumer × Bool)
          → Progress d.consumer r
          → Descends d (elim r.0 [
            | ok ms ↦
                finish_batch codec dummy_consumer ms
                  (record d { process = record (d.process) { quit = r.2 }; consumer = r.1 })
            | err e ↦ ok (record d { process = record (d.process) { quit = r.2 }; consumer = r.1 })
          ])
      go (ok ms, c, quit) (asks', progress) =
          finish_batch-Descends ms _ d asks' (ground (arith, ok-injective {a = ms} {b = []}))
      go (err e, c, quit) (asks', progress) = (asks', ground arith)

  single_round-Descends :
      (d : Dispatcher W DummyConsumer)
      → AsksToQuit d.consumer
      → d.process.quit ≡ false
      → Descends d (single_round codec dummy_consumer d)
  unfolding single_round
  single_round-Descends d asks goes =
      go (poll d.consumer d.process.quit) (poll_progress d.consumer d.process.quit asks)
    where
      handled :
          (c : DummyConsumer) (r : Result (Process W))
          → AsksToQuit c
          → room c < rounds_left d
          → Descends d (r >>= λ p. ok (record d { process = p; consumer = c }))
      handled c (ok p) asks' less = (asks', ground arith)
      handled c (err e) asks' less = tt

      go :
          (r : Result (Option Message) × DummyConsumer × Bool)
          → AsksToQuit r.1 × ((room r.1 < room d.consumer) ⊎ ((r.0 ≡ ok none) × (r.2 ≡ true)))
          → Descends d (
              r.0 >>= λ message.
              handle_message codec d.registered_handlers message (record (d.process) { quit = r.2 })
              >>= λ p. ok (record d { process = p; consumer = r.1 }))
      go (ok none, c, quit) (asks', progress) =
          unfold handle_message prepare_message in (asks', ground arith)
      go (ok (some m), c, quit) (asks', progress) =
          handled c
            (handle_message codec d.registered_handlers (some m)
              (record (d.process) { quit = quit }))
            asks' (ground arith)
      go (err e, c, quit) progress = tt

  receive_round-Descends :
      (batch_size : Option ℕ) (d : Dispatcher W DummyConsumer)
      → IsPositive batch_size
      → AsksToQuit d.consumer
      → d.process.quit ≡ false
      → Descends d (receive_round codec dummy_consumer batch_size d)
  receive_round-Descends none d h asks goes = single_round-Descends d asks goes
  receive_round-Descends (some zero) d h asks goes = elim h [ ]
  receive_round-Descends (some (suc b)) d h asks goes = batch_round-Descends b d asks goes

  -- Over a dummy consumer that is told to quit the dispatcher at the end of its queue, `receive` stops
  -- for every set of handlers, whatever they do to the world, to `quit` and by exceptions, in single
  -- mode and for every positive batch size: three rounds more than there are messages are enough.
  pub receive_ends :
      (batch_size : Option ℕ) (fuel : ℕ) (d : Dispatcher W DummyConsumer)
      → IsPositive batch_size
      → AsksToQuit d.consumer
      → length d.consumer.messages + 3 ≤ fuel
      → (r : Result (Dispatcher W DummyConsumer)) × (receive codec dummy_consumer fuel batch_size d
          ≡ some r)
  unfolding receive
  receive_ends batch_size fuel d h asks enough =
      let (r, ends) =
        run_until_quit_ends (receive_round codec dummy_consumer batch_size)
          (λ d'. receive_round-Descends batch_size d' h) fuel (subscribed dummy_consumer d) asks
          (ground arith) in
      (close_after dummy_consumer r, rw (ends, receive))
