-- ===== src/Kafka/Dispatcher.antt =====
-- `KafkaDispatcher` of api/advisor/kafka_utils.py, over handlers with a world `W` and a consumer with
-- state `C`. Logging is left out.
pub mod Registering
pub mod Grouping
pub mod Registered
pub mod Calls
pub mod Raises
pub mod Rounds
pub mod Consuming
pub mod Stopping
pub mod Decoding
mod Examples
use advisor_backend.Common.{
  ℕ, zero, suc, String, Bool, true, false, not, ◌&&◌, Option, none, some, List, [], ◌∷◌, ◌++◌, map,
  ◌==◌, nat_eq, string_eq, all, if◌then◌else◌, Result, ok, err, key_error, unicode_error, ◌>>=◌,
}
use advisor_backend.Common.Dict.{Dict, lookup, put, has_key, keys}
use advisor_backend.Json.{JsonValue, arr, to_items}
use advisor_backend.Kafka.Message.{Bytes, Message, Codec, strip, HandlerFunc, HandlerEntry}
use advisor_backend.Kafka.Consumer.{Consumer}

-- Django's signals around each handler call.
pub data Signal : Type 0 where
  request_started request_finished : Signal

abbrev pub Handlers : Type 0 → Type 0
Handlers W = Dict String (HandlerEntry W)

-- What a handler call changes: the world, `quit`, and the signals that were sent.
pub record Process (W : Type 0) : Type 0 where
  pub world : W
  pub quit : Bool
  pub signals : List Signal

pub record Dispatcher (W C : Type 0) : Type 0 where
  pub registered_handlers : Handlers W
  pub process : Process W
  pub consumer : C

module _ {W : Type 0} where
  unfoldable pub register_handler :
      String → HandlerFunc W → Bool → List (String × String) → Handlers W → Handlers W
  register_handler topic handler_fn batch filters registered =
      if has_key topic registered
      then registered
      else put topic (record { handler = handler_fn; filters = filters; batch = batch }) registered

module _ (codec : Codec) where
  -- The comprehension that builds `header_dict`: an empty value is skipped, and a value that is not
  -- UTF-8 raises.
  unfoldable pub decode_headers :
      List (String × Bytes) → Dict String String → Result (Dict String String)
  decode_headers [] d = ok d
  decode_headers ((key, []) ∷ headers) d = decode_headers headers d
  decode_headers ((key, byte ∷ bytes) ∷ headers) d = elim (codec.utf8 (byte ∷ bytes)) [
    | none ↦ err unicode_error
    | some value ↦ decode_headers headers (put key value d)
  ]

  -- The body, `none` where decoding or parsing raises.
  unfoldable pub decode_body : Bytes → Option JsonValue
  decode_body value = elim (codec.utf8 value) [
    | none ↦ none
    | some text ↦ codec.loads (strip b'"' text)
  ]

abbrev pub header_list : Option (List (String × Bytes)) → List (String × Bytes)
header_list none = []
header_list (some headers) = headers

abbrev has_value : Option String → String → Bool
has_value none value = false
has_value (some v) value = v == value

unfoldable pub filters_matched : Dict String String → List (String × String) → Bool
filters_matched header_dict filters = all (λ p. has_value (lookup p.0 header_dict) p.1) filters

abbrev pub with_topic : String → Option JsonValue → Option (String × JsonValue)
with_topic topic none = none
with_topic topic (some body) = some (topic, body)

module _ {W : Type 0} (codec : Codec) where
  unfoldable pub prepare_for : HandlerEntry W → Message → Result (Option (String × JsonValue))
  unfolding decode_headers filters_matched decode_body
  prepare_for entry m = do
    header_dict ← decode_headers codec (header_list m.headers) []
    if filters_matched header_dict entry.filters
        then ok (with_topic m.topic (decode_body codec m.value))
        else ok none

  -- _prepare_message
  unfoldable pub prepare_message :
      Handlers W → Option Message → Result (Option (String × JsonValue))
  unfolding prepare_for
  prepare_message handlers none = ok none
  prepare_message handlers (some m) =
      if not (m.error == "")
      then ok none
      else elim (lookup m.topic handlers) [ none ↦ ok none | some entry ↦ prepare_for entry m ]

abbrev pub is_ok {ℓ} : {A : Type ℓ} → Result A → Bool
is_ok (ok a) = true
is_ok (err e) = false

module _ {W : Type 0} where
  -- One handler call between its two signals: whether it returned, as an exception is caught.
  unfoldable pub call_handler : HandlerFunc W → String → JsonValue → Process W → Bool × Process W
  call_handler handler topic payload p =
      let (result, world, quit) = handler topic payload p.world p.quit in
      (
        is_ok result,
        record {
          world = world;
          quit = quit;
          signals = p.signals ++ request_started ∷ request_finished ∷ [];
        },
      )

  -- The handler of a prepared message, in single mode.
  unfoldable pub run_single : Handlers W → String × JsonValue → Process W → Result (Process W)
  unfolding call_handler
  run_single handlers (topic, body) p = elim (lookup topic handlers) [
    | none ↦ err (key_error topic)
    | some entry ↦ if entry.batch then ok p else ok (call_handler entry.handler topic body p).1
  ]

  -- _handle_message
  unfoldable pub handle_message :
      Codec → Handlers W → Option Message → Process W → Result (Process W)
  unfolding prepare_message run_single
  handle_message codec handlers message p = do
    prepared ← prepare_message codec handlers message
    elim prepared [ none ↦ ok p | some tb ↦ run_single handlers tb p ]

-- The bodies of a batch by topic, the topics in the order of their first message.
abbrev pub Groups : Type 0
Groups = Dict String (List JsonValue)

abbrev pub bodies_of : Option (List JsonValue) → List JsonValue
bodies_of none = []
bodies_of (some bodies) = bodies

-- if topic not in grouped: grouped[topic] = []
unfoldable pub open_group : String → Groups → Groups
open_group topic grouped = if has_key topic grouped then grouped else put topic [] grouped

unfoldable pub add_body : String × JsonValue → Groups → Groups
add_body (topic, body) grouped =
    put topic (bodies_of (lookup topic (open_group topic grouped)) ++ body ∷ [])
      (open_group topic grouped)

abbrev pub add_prepared : Option (String × JsonValue) → Groups → Groups
add_prepared none grouped = grouped
add_prepared (some tb) grouped = add_body tb grouped

-- [bodies] if handler_entry['batch'] else bodies
abbrev pub invocations : Bool → List JsonValue → List JsonValue
invocations true bodies = arr (to_items bodies) ∷ []
invocations false bodies = bodies

module _ {W : Type 0} where
  unfoldable pub group_messages : Codec → Handlers W → List Message → Groups → Result Groups
  group_messages codec handlers [] grouped = ok grouped
  group_messages codec handlers (m ∷ ms) grouped = do
    prepared ← prepare_message codec handlers (some m)
    group_messages codec handlers ms (add_prepared prepared grouped)

  unfoldable pub call_each :
      HandlerFunc W → String → List JsonValue → Bool × Process W → Bool × Process W
  unfolding call_handler
  call_each handler topic [] s = s
  call_each handler topic (payload ∷ payloads) (success, p) =
      let (returned, p') = call_handler handler topic payload p in
      call_each handler topic payloads (success && returned, p')

  unfoldable pub run_groups : Handlers W → Groups → Bool × Process W → Result (Bool × Process W)
  unfolding call_each
  run_groups handlers [] s = ok s
  run_groups handlers ((topic, bodies) ∷ groups) s = elim (lookup topic handlers) [
    | none ↦ err (key_error topic)
    | some entry ↦
        run_groups handlers groups
          (call_each entry.handler topic (invocations entry.batch bodies) s)
  ]

  -- _handle_batch_messages
  unfoldable pub handle_batch_messages :
      Codec → Handlers W → List Message → Process W → Result (Bool × Process W)
  unfolding group_messages run_groups
  handle_batch_messages codec handlers messages p = do
    grouped ← group_messages codec handlers messages []
    run_groups handlers grouped (true, p)

module _ {C : Type 0} (consumer : Consumer C) where
  -- _store_offsets
  unfoldable pub store_offsets : List Message → C → Result (Unit {0}) × C
  store_offsets [] c = (ok tt, c)
  store_offsets (m ∷ ms) c = elim (m.error == "") [
    | false ↦ store_offsets ms c
    | true ↦
        let (result, c') = consumer.store_offsets m c in
        elim result [ ok _ ↦ store_offsets ms c' | err e ↦ (err e, c') ]
  ]

  -- The `try` block behind a successful batch.
  unfoldable pub commit_offsets : List Message → C → C
  commit_offsets ms c =
      let (result, c') = store_offsets ms c in
      elim result [ ok _ ↦ (consumer.commit c').1 | err e ↦ c' ]

module _ {W C : Type 0} (codec : Codec) (consumer : Consumer C) where
  -- What `_receive_batch` does with the messages that it consumed.
  unfoldable pub finish_batch : List Message → Dispatcher W C → Result (Dispatcher W C)
  finish_batch [] d = ok d
  finish_batch (m ∷ ms) d = do
    handled ← handle_batch_messages codec d.registered_handlers (m ∷ ms) d.process
    if handled.0
        then ok (record d {
          process = handled.1;
          consumer = commit_offsets consumer (m ∷ ms) d.consumer;
        })
        else ok (record d { process = record (handled.1) { quit = true } })

  -- One pass of the `while` loop of `_receive_batch`.
  unfoldable pub batch_round : ℕ → Dispatcher W C → Result (Dispatcher W C)
  batch_round batch_size d =
      let (result, c, quit) = consumer.consume batch_size d.consumer d.process.quit in
      let d' : Dispatcher W C = record d {
        process = record (d.process) { quit = quit };
        consumer = c;
      } in
      elim result [ ok ms ↦ finish_batch ms d' | err e ↦ ok d' ]

  -- One pass of the `while` loop of `_receive_single`.
  unfoldable pub single_round : Dispatcher W C → Result (Dispatcher W C)
  single_round d =
      let (result, c, quit) = consumer.poll d.consumer d.process.quit in
      do
        message ← result
        p ← handle_message codec d.registered_handlers message (record (d.process) { quit = quit })
        ok (record d { process = p; consumer = c })

-- `while not self.quit: body`, on fuel: `none` while the loop still runs.
unfoldable pub run_until_quit :
    {W C : Type 0}
    → (Dispatcher W C → Result (Dispatcher W C))
    → ℕ
    → Dispatcher W C
    → Option (Result (Dispatcher W C))
run_until_quit body zero d = none
run_until_quit body (suc fuel) d = elim d.process.quit [
  | true ↦ some (ok d)
  | false ↦ elim (body d) [ ok d' ↦ run_until_quit body fuel d' | err e ↦ some (err e) ]
]

module _ {W C : Type 0} (consumer : Consumer C) where
  abbrev pub subscribed : Dispatcher W C → Dispatcher W C
  subscribed d = record d { consumer = consumer.subscribe (keys d.registered_handlers) d.consumer }

  abbrev pub closed : Dispatcher W C → Dispatcher W C
  closed d = record d { consumer = consumer.close d.consumer }

  abbrev pub close_after : Result (Dispatcher W C) → Result (Dispatcher W C)
  close_after (ok d) = ok (closed d)
  close_after (err e) = err e

module _ {W C : Type 0} (codec : Codec) (consumer : Consumer C) where
  -- The loop of `receive`, by `batch_size`.
  abbrev pub receive_round : Option ℕ → Dispatcher W C → Result (Dispatcher W C)
  receive_round none = single_round codec consumer
  receive_round (some batch_size) = batch_round codec consumer batch_size

  unfoldable pub receive : ℕ → Option ℕ → Dispatcher W C → Option (Result (Dispatcher W C))
  receive fuel batch_size d =
      elim (run_until_quit (receive_round batch_size) fuel (subscribed consumer d)) [
        | none ↦ none
        | some r ↦ some (close_after consumer r)
      ]
