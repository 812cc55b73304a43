-- ===== src/Kafka/Producer.antt =====
-- `DummyProducer`, `send_kafka_message` and `send_webhook_event` of api/advisor/kafka_utils.py. The
-- delivery callback only writes to the log.
use advisor_backend.Common.{ℕ, ◌+◌, String, Option, none, some, List, [], ◌∷◌, ◌++◌}
use advisor_backend.Json.{JsonValue}
use advisor_backend.Kafka.Message.{Bytes, Codec}

pub record ProducerEntry : Type 0 where
  pub topic : String
  pub message : Bytes
  pub callback : Option String

pub record DummyProducer : Type 0 where
  pub poll_calls : ℕ
  pub produce_calls : List ProducerEntry
  pub flush_calls : ℕ

unfoldable pub poll : DummyProducer → DummyProducer
poll p = record p { poll_calls = p.poll_calls + 1 }

unfoldable pub produce : String → Bytes → Option String → DummyProducer → DummyProducer
produce topic message callback p = record p {
  produce_calls =
      p.produce_calls ++ record { topic = topic; message = message; callback = callback } ∷ [];
}

unfoldable pub flush : DummyProducer → DummyProducer
flush p = record p { flush_calls = p.flush_calls + 1 }

unfoldable pub reset_calls : DummyProducer → DummyProducer
reset_calls p = record { poll_calls = 0; produce_calls = []; flush_calls = 0 }

-- `producer` is the module's variable: `none` where Kafka is not configured.
unfoldable pub send_kafka_message :
    Codec → String → JsonValue → Option DummyProducer → Option DummyProducer
unfolding poll produce flush
send_kafka_message codec topic message none = none
send_kafka_message codec topic message (some p) =
    some (flush (produce topic (codec.dumps message) (some "report_delivery_callback") (poll p)))

unfoldable pub send_webhook_event :
    Codec → (webhooks_topic : String) → JsonValue → Option DummyProducer → Option DummyProducer
unfolding send_kafka_message
send_webhook_event codec webhooks_topic event_msg =
    send_kafka_message codec webhooks_topic event_msg
