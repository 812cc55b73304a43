-- ===== src/Kafka/Dispatcher/Examples.antt =====
-- Runs of the dispatcher on concrete handlers and messages.
use advisor_backend.Common.{
  String, ◌≡◌, refl, Bool, true, false, Option, none, some, List, [], ◌∷◌, ◌++◌, map, arith, ◌==◌,
  nat_eq, string_eq, if◌then◌else◌, Result, ok, err, unicode_error, key_error, ◌↔◌,
}
use advisor_backend.Common.Dict.{lookup, put}
use advisor_backend.Json.{JsonValue, str}
use advisor_backend.Kafka.Message.{Message, Codec, HandlerEntry, HandlerFunc, strip, new_message}
use advisor_backend.Kafka.Consumer.{
  DummyConsumer, new_consumer, poll, consume_from, consume, dummy_consumer,
}
use advisor_backend.Kafka.Dispatcher.{
  Handlers, Process, Dispatcher, Groups, decode_headers, decode_body, filters_matched, prepare_for,
  prepare_message, call_handler, run_single, handle_message, open_group, add_body, group_messages,
  call_each, run_groups, handle_batch_messages, store_offsets, commit_offsets, finish_batch,
  batch_round, single_round, run_until_quit, receive, register_handler, bodies_of,
}
use advisor_backend.Kafka.Dispatcher.Registering.{register_all, or_option, lookup-register_all}
use advisor_backend.Kafka.Dispatcher.Grouping.{prepare_all, bodies_for, group-bodies}
use advisor_backend.Kafka.Dispatcher.Calls.{
  AllReturn, calls_of, handle_batch-AllReturn, handle_batch-signals, signals_around,
}
use advisor_backend.Kafka.Dispatcher.Raises.{handle_batch-error}
use advisor_backend.Kafka.Dispatcher.Rounds.{BatchRun, loop-BatchRun}
use advisor_backend.Kafka.Dispatcher.Stopping.{receive_ends}
use advisor_backend.Kafka.Dispatcher.Decoding.{bad_header_raises, bad_body_is_skipped}

-- The byte 255 is no text, and a text other than "x" is no JSON.
abbrev codec : Codec
codec = record {
  utf8 = λ bytes. elim bytes [
    | [] ↦ some ""
    | b ∷ rest ↦ if b == 255 then none else if b == 120 then some "x" else some "y"
  ];
  loads = λ text. if text == "x" then some (str "x") else none;
  dumps = λ v. 120 ∷ [];
}

abbrev World : Type 0
World = List (String × JsonValue)

abbrev recorder : HandlerFunc World
recorder topic body world quit = (ok tt, world ++ (topic, body) ∷ [], quit)

abbrev failing : HandlerFunc World
failing topic body world quit = (err (key_error "id"), world, quit)

abbrev entry : HandlerFunc World → Bool → HandlerEntry World
entry h batch = record { handler = h; filters = []; batch = batch }

abbrev handlers : Handlers World
handlers =
    ("single", entry recorder false)
    ∷ ("batch", entry recorder true)
    ∷ ("broken", entry failing false)
    ∷ []

abbrev good : String → Message
good topic = new_message topic (120 ∷ []) none

abbrev malformed : Message
malformed = new_message "single" (121 ∷ []) none

abbrev poisoned : Message
poisoned = new_message "single" (120 ∷ []) (some (("service", 255 ∷ []) ∷ []))

abbrev batch : List Message
batch = good "single" ∷ good "batch" ∷ good "single" ∷ good "batch" ∷ []

abbrev idle_process : Process World
idle_process = record { world = []; quit = false; signals = [] }

abbrev queue : List (Option Message) → DummyConsumer
queue ms = record new_consumer { messages = ms; dispatcher_to_quit = true }

abbrev dispatcher : List (Option Message) → Dispatcher World DummyConsumer
dispatcher ms = record {
  registered_handlers = handlers;
  process = idle_process;
  consumer = queue ms;
}

program : Unit {0}
unfolding lookup put strip poll consume_from consume decode_headers decode_body filters_matched
    prepare_for prepare_message call_handler run_single handle_message open_group add_body
    group_messages call_each run_groups handle_batch_messages store_offsets commit_offsets
    finish_batch batch_round single_round run_until_quit receive register_handler
program = tt

abbrev grouped : Groups
grouped = ("single", str "x" ∷ str "x" ∷ []) ∷ ("batch", str "x" ∷ str "x" ∷ []) ∷ []

group_runs : group_messages codec handlers batch [] ≡ ok grouped
unfolding program
group_runs = refl

batch_end : Process World
unfolding program
batch_end = elim (handle_batch_messages codec handlers batch idle_process) [
  | ok r ↦ r.1
  | err e ↦ idle_process
]

batch_runs : handle_batch_messages codec handlers batch idle_process ≡ ok (true, batch_end)
unfolding program batch_end
batch_runs = refl

group-bodies_example :
    (prepared : List (String × JsonValue)) × (prepare_all codec handlers batch ≡ ok prepared)
    × ((topic : String) → bodies_of (lookup topic grouped) ≡ bodies_for topic prepared)
group-bodies_example = group-bodies codec handlers batch grouped group_runs

handle_batch-AllReturn_example :
    (handle_batch_messages codec handlers batch idle_process ≡ ok (true, batch_end)) ↔ (
      (g : Groups) × (group_messages codec handlers batch [] ≡ ok g)
      × AllReturn (calls_of handlers g) idle_process batch_end)
handle_batch-AllReturn_example = handle_batch-AllReturn codec handlers batch idle_process batch_end

handle_batch-signals_example :
    batch_end.signals ≡ idle_process.signals ++ signals_around (calls_of handlers grouped)
handle_batch-signals_example =
    handle_batch-signals codec handlers batch idle_process batch_end true grouped group_runs
      batch_runs

poisoned_runs :
    handle_batch_messages codec handlers (good "single" ∷ poisoned ∷ []) idle_process
    ≡ err unicode_error
unfolding program
poisoned_runs = refl

handle_batch-error_example : unicode_error ≡ unicode_error
handle_batch-error_example =
    handle_batch-error codec handlers (good "single" ∷ poisoned ∷ []) idle_process unicode_error
      poisoned_runs

bad_header_raises_example :
    (prepare_message codec handlers (some poisoned) ≡ err unicode_error)
    × (handle_message codec handlers (some poisoned) idle_process ≡ err unicode_error)
    × (handle_batch_messages codec handlers (batch ++ poisoned ∷ batch) idle_process
        ≡ err unicode_error)
unfolding lookup
bad_header_raises_example =
    bad_header_raises codec handlers poisoned refl refl [] [] "service" 255 [] refl refl batch batch
      idle_process

bad_body_is_skipped_example :
    (handle_message codec handlers (some malformed) idle_process ≡ ok idle_process)
    × (handle_batch_messages codec handlers (malformed ∷ batch) idle_process
        ≡ handle_batch_messages codec handlers batch idle_process)
unfolding lookup decode_headers decode_body strip
bad_body_is_skipped_example =
    bad_body_is_skipped codec handlers malformed refl refl refl refl batch idle_process

lookup-register_all_example :
    lookup "single" (register_all handlers handlers)
    ≡ or_option (lookup "single" handlers) (lookup "single" handlers)
lookup-register_all_example = lookup-register_all handlers handlers "single"

-- A batch with a failing call: the second batch is not consumed and nothing is committed for it.
abbrev failing_queue : Dispatcher World DummyConsumer
failing_queue = dispatcher (some (good "single") ∷ some (good "broken") ∷ some (good "single") ∷ [])

failing_end : Dispatcher World DummyConsumer
unfolding program
failing_end = elim (run_until_quit (batch_round codec dummy_consumer 1) 9 failing_queue) [
  | none ↦ failing_queue
  | some r ↦ elim r [ ok d ↦ d | err e ↦ failing_queue ]
]

failing_runs :
    run_until_quit (batch_round codec dummy_consumer 1) 9 failing_queue ≡ some (ok failing_end)
unfolding program failing_end
failing_runs = refl

one_commit : (failing_end.consumer.commit_count ≡ 1) × (failing_end.consumer.message_index ≡ 2)
unfolding program failing_end
one_commit = (refl, refl)

loop-BatchRun_example : BatchRun codec dummy_consumer 1 failing_queue failing_end
loop-BatchRun_example =
    loop-BatchRun codec dummy_consumer 1 9 failing_queue failing_end failing_runs

receive_ends_example :
    (r : Result (Dispatcher World DummyConsumer)) × (receive codec dummy_consumer 7
        (some 2)
        (dispatcher (map some batch))
      ≡ some r)
receive_ends_example =
    receive_ends codec (some 2) 7 (dispatcher (map some batch)) (omega arith) refl (omega arith)
