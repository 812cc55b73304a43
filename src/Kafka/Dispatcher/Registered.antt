-- ===== src/Kafka/Dispatcher/Registered.antt =====
-- The topics of a batch's groups are registered.
use advisor_backend.Common.{
  String, ◌≡◌, true, Option, none, some, List, [], ◌∷◌, arith, string_eq, inl, inr, ok, All,
  Option-cases, >>=-eq-ok, ok-injective, subst,
}
use advisor_backend.Common.Dict.{lookup, put, has_key}
use advisor_backend.Json.{JsonValue}
use advisor_backend.Kafka.Message.{Message, Codec, HandlerEntry}
use advisor_backend.Kafka.Dispatcher.{
  Handlers, Groups, open_group, add_body, add_prepared, prepare_message, prepare_for,
  group_messages,
}

module _ {W : Type 0} where
  abbrev pub AreRegistered : Handlers W → Groups → Type 0
  AreRegistered handlers = All (λ g. has_key g.0 handlers ≡ true)

  put-AreRegistered :
      (handlers : Handlers W) (topic : String) (bodies : List JsonValue) (g : Groups)
      → has_key topic handlers ≡ true
      → AreRegistered handlers g
      → AreRegistered handlers (put topic bodies g)
  unfolding put
  put-AreRegistered handlers topic bodies [] r h = (r, tt)
  put-AreRegistered handlers topic bodies ((t, bs) ∷ g) r h =
      ground (arith, put-AreRegistered handlers topic bodies g r h.1)

  open_group-AreRegistered :
      (handlers : Handlers W) (topic : String) (g : Groups)
      → has_key topic handlers ≡ true
      → AreRegistered handlers g
      → AreRegistered handlers (open_group topic g)
  unfolding open_group
  open_group-AreRegistered handlers topic g r h =
      ground (arith, put-AreRegistered handlers topic [] g r h)

  prepare_for-topic :
      (codec : Codec) (entry : HandlerEntry W) (m : Message) {topic : String} {body : JsonValue}
      → prepare_for codec entry m ≡ ok (some (topic, body))
      → m.topic ≡ topic
  unfolding prepare_for
  prepare_for-topic codec entry m e = ground arith

  prepare-is_registered :
      (codec : Codec) (handlers : Handlers W) (m : Message) {topic : String} {body : JsonValue}
      → prepare_message codec handlers (some m) ≡ ok (some (topic, body))
      → has_key topic handlers ≡ true
  unfolding prepare_message
  prepare-is_registered codec handlers m e = elim (Option-cases (lookup m.topic handlers)) [
    | inl unknown ↦ ground arith
    | inr (entry, known) ↦ ground (arith, prepare_for-topic codec entry m)
  ]

  add_prepared-AreRegistered :
      (codec : Codec) (handlers : Handlers W) (m : Message) (g : Groups)
      (prepared : Option (String × JsonValue))
      → prepare_message codec handlers (some m) ≡ ok prepared
      → AreRegistered handlers g
      → AreRegistered handlers (add_prepared prepared g)
  unfolding add_body
  add_prepared-AreRegistered codec handlers m g none e h = h
  add_prepared-AreRegistered codec handlers m g (some (topic, body)) e h =
      let r = prepare-is_registered codec handlers m e in
      put-AreRegistered handlers topic _ _ r (open_group-AreRegistered handlers topic g r h)

  pub group-AreRegistered :
      (codec : Codec) (handlers : Handlers W) (ms : List Message) (g g' : Groups)
      → AreRegistered handlers g
      → group_messages codec handlers ms g ≡ ok g'
      → AreRegistered handlers g'
  unfolding group_messages
  group-AreRegistered codec handlers [] g g' h e = subst (AreRegistered handlers) (ok-injective e) h
  group-AreRegistered codec handlers (m ∷ ms) g g' h e =
      let (prepared, made, rest) = >>=-eq-ok (prepare_message codec handlers (some m)) _ e in
      group-AreRegistered codec handlers ms _ g'
        (add_prepared-AreRegistered codec handlers m g prepared made h) rest
