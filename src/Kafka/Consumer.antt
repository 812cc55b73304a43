-- ===== src/Kafka/Consumer.antt =====
-- The consumer as the dispatcher uses it, and `DummyConsumer` of api/advisor/kafka_utils.py.
use advisor_backend.Common.{
  ℕ, zero, suc, ◌+◌, String, Bool, true, false, Option, none, some, List, [], ◌∷◌, ◌++◌, length,
  ltb, if◌then◌else◌, Result, ok, err, kafka_error,
}
use advisor_backend.Json.{JsonValue}
use advisor_backend.Kafka.Message.{Bytes, Message, Codec, new_message}

-- The operations on a consumer with state `C`. While `poll` and `consume` wait, the dispatcher's
-- `quit` may be set, so they take its value and give the new one.
pub record Consumer (C : Type 0) : Type 0 where
  pub subscribe : List String → C → C
  pub poll : C → Bool → Result (Option Message) × C × Bool
  pub consume : ℕ → C → Bool → Result (List Message) × C × Bool
  pub store_offsets : Message → C → Result (Unit {0}) × C
  pub commit : C → Result (Unit {0}) × C
  pub close : C → C

-- `dispatcher_to_quit` says whether a dispatcher was registered.
pub record DummyConsumer : Type 0 where
  pub messages : List (Option Message)
  pub message_index : ℕ
  pub subscribed_topics : List String
  pub closed : Bool
  pub commit_count : ℕ
  pub store_offsets_count : ℕ
  pub dispatcher_to_quit : Bool

abbrev pub new_consumer : DummyConsumer
new_consumer = record {
  messages = [];
  message_index = 0;
  subscribed_topics = [];
  closed = false;
  commit_count = 0;
  store_offsets_count = 0;
  dispatcher_to_quit = false;
}

unfoldable pub add_message_obj : Option Message → DummyConsumer → DummyConsumer
add_message_obj m c = record c { messages = c.messages ++ m ∷ [] }

unfoldable pub add_message :
    Codec → String → JsonValue → Option (List (String × Bytes)) → DummyConsumer → DummyConsumer
unfolding add_message_obj
add_message codec topic value headers =
    add_message_obj (some (new_message topic (codec.dumps value) headers))

unfoldable pub set_dispatcher_quit : DummyConsumer → DummyConsumer
set_dispatcher_quit c = record c { dispatcher_to_quit = true }

abbrev elem_at : List (Option Message) → ℕ → Option Message
elem_at [] i = none
elem_at (m ∷ ms) zero = m
elem_at (m ∷ ms) (suc i) = elem_at ms i

unfoldable pub poll : DummyConsumer → Bool → Result (Option Message) × DummyConsumer × Bool
poll c quit =
    if c.closed
    then if c.dispatcher_to_quit then (ok none, c, true) else (err kafka_error, c, quit)
    else if ltb c.message_index (length c.messages)
    then (
      ok (elem_at c.messages c.message_index),
      record c { message_index = c.message_index + 1 },
      quit,
    )
    else (ok none, record c { closed = true }, quit)

-- The `for` loop of `consume`, with the batch so far.
unfoldable pub consume_from :
    ℕ → List Message → DummyConsumer → Bool → Result (List Message) × DummyConsumer × Bool
consume_from zero batch c quit = (ok batch, c, quit)
consume_from (suc n) batch c quit =
    let (result, c', quit') = poll c quit in
    elim result [
      | ok m ↦ elim m [
        | none ↦ (ok batch, c', quit')
        | some m ↦ consume_from n (batch ++ m ∷ []) c' quit'
      ]
      | err e ↦ (ok batch, c', quit')
    ]

unfoldable pub consume : ℕ → DummyConsumer → Bool → Result (List Message) × DummyConsumer × Bool
consume n = consume_from n []

-- `DummyConsumer` as a consumer.
abbrev pub dummy_consumer : Consumer DummyConsumer
dummy_consumer = record {
  subscribe = λ topics c. record c { subscribed_topics = topics };
  poll = poll;
  consume = consume;
  store_offsets = λ m c. (ok tt, record c { store_offsets_count = c.store_offsets_count + 1 });
  commit = λ c. (ok tt, record c { commit_count = c.commit_count + 1 });
  close = λ c. record c { closed = true };
}
