-- ===== src/Kafka/Dispatcher/Registering.antt =====
-- `register_handler`: of several handlers for one topic the first counts.
use advisor_backend.Common.{
  String, ◌≡◌, Option, none, some, [], ◌∷◌, arith, ◌==◌, string_eq, if◌then◌else◌,
}
use advisor_backend.Common.Dict.{Dict, lookup, lookup-put}
use advisor_backend.Kafka.Message.{HandlerEntry}
use advisor_backend.Kafka.Dispatcher.{Handlers, register_handler}

abbrev pub or_option {ℓ} : {A : Type ℓ} → Option A → Option A → Option A
or_option none b = b
or_option (some a) b = some a

module _ {W : Type 0} where
  -- A sequence of `register_handler` calls.
  pub register_all : Dict String (HandlerEntry W) → Handlers W → Handlers W
  register_all [] registered = registered
  register_all ((topic, entry) ∷ calls) registered =
      register_all calls (register_handler topic entry.handler entry.batch entry.filters registered)

  lookup-register :
      (topic j : String) (entry : HandlerEntry W) (registered : Handlers W)
      → lookup j (register_handler topic entry.handler entry.batch entry.filters registered)
        ≡ or_option (lookup j registered) (if topic == j then some entry else none)
  unfolding register_handler
  lookup-register topic j entry registered =
      ground (arith, lookup-put topic j entry registered, string_eq.same_iff topic j)

  -- After any sequence of registrations the handler of a topic is the one that it had before, and
  -- otherwise the one of the first call for that topic: later calls for the topic are ignored.
  pub lookup-register_all :
      (calls : Dict String (HandlerEntry W)) (registered : Handlers W) (topic : String)
      → lookup topic (register_all calls registered)
        ≡ or_option (lookup topic registered) (lookup topic calls)
  unfolding register_all lookup
  lookup-register_all [] registered topic = ground arith
  lookup-register_all ((t, entry) ∷ calls) registered topic =
      rw (lookup-register_all calls _ topic, lookup-register t topic entry registered)
        (ground arith)
