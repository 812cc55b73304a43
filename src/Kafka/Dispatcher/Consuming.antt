-- ===== src/Kafka/Dispatcher/Consuming.antt =====
-- `DummyConsumer` inside the receive loop: each poll and consume makes progress.
use advisor_backend.Common.{
  ℕ, zero, suc, ◌+◌, ◌-◌, ◌≤◌, ◌<◌, ◌≡◌, Bool, true, Option, none, some, List, [], ◌∷◌, ◌++◌, arith,
  ◌⊎◌, if◌then◌else◌, Result, ok, err, length, filter, ◌==◌, string_eq,
}
use advisor_backend.Kafka.Message.{Message}
use advisor_backend.Kafka.Consumer.{DummyConsumer, poll, consume_from, consume, dummy_consumer}
use advisor_backend.Kafka.Dispatcher.{store_offsets, commit_offsets}

-- How many more rounds `c` can keep a loop running.
abbrev pub room : DummyConsumer → ℕ
room c = if c.closed then 1 else 2 + (length c.messages - c.message_index)

abbrev pub AsksToQuit : DummyConsumer → Type 0
AsksToQuit c = c.dispatcher_to_quit ≡ true

pub poll_progress :
    (c : DummyConsumer) (quit : Bool)
    → AsksToQuit c
    → AsksToQuit (poll c quit).1
      × ((room (poll c quit).1 < room c) ⊎ (((poll c quit).0 ≡ ok none) × ((poll c quit).2 ≡ true)))
unfolding poll
poll_progress c quit h = ground arith

poll_room :
    (c : DummyConsumer) (quit : Bool)
    → AsksToQuit c
    → AsksToQuit (poll c quit).1 × (room (poll c quit).1 ≤ room c)
unfolding poll
poll_room c quit h = ground arith

abbrev Keeps : DummyConsumer → Result (List Message) × DummyConsumer × Bool → Type 0
Keeps c r = AsksToQuit r.1 × (room r.1 ≤ room c)

consume_from-Keeps :
    (n : ℕ) (batch : List Message) (c : DummyConsumer) (quit : Bool)
    → AsksToQuit c
    → Keeps c (consume_from n batch c quit)
unfolding consume_from
consume_from-Keeps zero batch c quit h = (h, omega arith)
consume_from-Keeps (suc n) batch c quit h =
    step (poll c quit) (poll_room c quit h) (λ m. consume_from-Keeps n (batch ++ m ∷ []))
  where
    step :
        (r : Result (Option Message) × DummyConsumer × Bool)
        → AsksToQuit r.1 × (room r.1 ≤ room c)
        → ((m : Message) (c' : DummyConsumer) (quit' : Bool)
            → AsksToQuit c'
            → Keeps c' (consume_from n (batch ++ m ∷ []) c' quit'))
        → Keeps c (elim r.0 [
          | ok m ↦ elim m [
            | none ↦ (ok batch, r.1, r.2)
            | some m ↦ consume_from n (batch ++ m ∷ []) r.1 r.2
          ]
          | err e ↦ (ok batch, r.1, r.2)
        ])
    step (ok none, c', quit') k ih = k
    step (ok (some m), c', quit') k ih = let (asks, le) = ih m c' quit' k.0 in (asks, omega arith)
    step (err e, c', quit') k ih = k

-- A call of `consume` makes progress, or it finds the queue closed and asks to quit.
abbrev pub Progress : DummyConsumer → Result (List Message) × DummyConsumer × Bool → Type 0
Progress c r = AsksToQuit r.1 × ((room r.1 < room c) ⊎ ((r.0 ≡ ok []) × (r.2 ≡ true)))

pub consume-Progress :
    (b : ℕ) (c : DummyConsumer) (quit : Bool) → AsksToQuit c → Progress c (consume (suc b) c quit)
unfolding consume consume_from
consume-Progress b c quit h = step (poll c quit) (poll_progress c quit h)
  where
    step :
        (r : Result (Option Message) × DummyConsumer × Bool)
        → AsksToQuit r.1 × ((room r.1 < room c) ⊎ ((r.0 ≡ ok none) × (r.2 ≡ true)))
        → Progress c (elim r.0 [
          | ok m ↦ elim m [ none ↦ (ok [], r.1, r.2) | some m ↦ consume_from b (m ∷ []) r.1 r.2 ]
          | err e ↦ (ok [], r.1, r.2)
        ])
    step (ok none, c', quit') k = ground arith
    step (ok (some m), c', quit') (asks, k) =
        let (asks', le) = consume_from-Keeps b (m ∷ []) c' quit' asks in ground arith
    step (err e, c', quit') k = ground arith

-- The messages whose offsets are stored.
abbrev pub no_error : Message → Bool
no_error m = m.error == ""

abbrev pub after_commit : List Message → DummyConsumer → DummyConsumer
after_commit ms c = record c {
  store_offsets_count = c.store_offsets_count + length (filter no_error ms);
  commit_count = c.commit_count + 1;
}

store_offsets-dummy :
    (ms : List Message) (c : DummyConsumer)
    → store_offsets dummy_consumer ms c ≡ (
      ok tt,
      record c { store_offsets_count = c.store_offsets_count + length (filter no_error ms) },
    )
unfolding store_offsets
store_offsets-dummy [] c = ground arith
store_offsets-dummy (m ∷ ms) c = ground (
  arith,
  store_offsets-dummy ms c,
  store_offsets-dummy ms (record c { store_offsets_count = c.store_offsets_count + 1 }),
)

pub commit_offsets-dummy :
    (ms : List Message) (c : DummyConsumer) → commit_offsets dummy_consumer ms c ≡ after_commit ms c
unfolding commit_offsets
commit_offsets-dummy ms c = ground (arith, store_offsets-dummy ms c)
