-- ===== src/Kafka/Dispatcher/Decoding.antt =====
-- What the dispatcher does with messages that do not decode.
use advisor_backend.Common.{
  ℕ, String, ◌≡◌, refl, ap, ◌∙◌, Option, Result, ◌++◌, ◌>>=◌, true, none, some, List, [], ◌∷◌,
  arith, ◌==◌, string_eq, ok, err, unicode_error,
}
use advisor_backend.Common.Dict.{Dict, lookup, put}
use advisor_backend.Json.{JsonValue}
use advisor_backend.Kafka.Message.{Bytes, Message, Codec, HandlerEntry}
use advisor_backend.Kafka.Dispatcher.{
  Handlers, Groups, add_prepared, Process, header_list, decode_headers, decode_body,
  prepare_message, prepare_for, handle_message, group_messages, handle_batch_messages,
}
use advisor_backend.Kafka.Dispatcher.Raises.{RaisesOnlyUnicode, prepare_message-RaisesOnlyUnicode}

decode_bad_header :
    (codec : Codec) (before after : List (String × Bytes)) (key : String) (byte : ℕ) (bytes : Bytes)
    (d : Dict String String)
    → codec.utf8 (byte ∷ bytes) ≡ none
    → decode_headers codec (before ++ (key, byte ∷ bytes) ∷ after) d ≡ err unicode_error
unfolding decode_headers
decode_bad_header codec [] after key byte bytes d bad = rw bad refl
decode_bad_header codec ((k, []) ∷ before) after key byte bytes d bad =
    decode_bad_header codec before after key byte bytes d bad
decode_bad_header codec ((k, b ∷ bs) ∷ before) after key byte bytes d bad =
    go (codec.utf8 (b ∷ bs))
      (λ text. decode_bad_header codec before after key byte bytes (put k text d) bad)
  where
    go :
        (o : Option String)
        → ((text : String)
            → decode_headers codec (before ++ (key, byte ∷ bytes) ∷ after) (put k text d)
              ≡ err unicode_error)
        → elim o as (λ _. Result (Dict String String)) [
          | none ↦ err unicode_error
          | some text ↦ decode_headers codec (before ++ (key, byte ∷ bytes) ∷ after) (put k text d)
        ]
          ≡ err unicode_error
    go none ih = refl
    go (some text) ih = ih text

group_bad_message :
    {W : Type 0} (codec : Codec) (handlers : Handlers W) (m : Message) (later : List Message)
    → prepare_message codec handlers (some m) ≡ err unicode_error
    → (earlier : List Message) (g : Groups)
    → group_messages codec handlers (earlier ++ m ∷ later) g ≡ err unicode_error
unfolding group_messages
group_bad_message codec handlers m later bad [] g = rw bad refl
group_bad_message codec handlers m later bad (x ∷ earlier) g =
    go (prepare_message codec handlers (some x))
      (prepare_message-RaisesOnlyUnicode codec handlers x)
      (λ o. group_bad_message codec handlers m later bad earlier (add_prepared o g))
  where
    go :
        (r : Result (Option (String × JsonValue)))
        → RaisesOnlyUnicode r
        → ((o : Option (String × JsonValue))
            → group_messages codec handlers (earlier ++ m ∷ later) (add_prepared o g)
              ≡ err unicode_error)
        → (r >>= λ o. group_messages codec handlers (earlier ++ m ∷ later) (add_prepared o g))
          ≡ err unicode_error
    go (ok o) h ih = ih o
    go (err e) h ih = ap err h

module _ {W : Type 0} (codec : Codec) (handlers : Handlers W) (m : Message) {entry : HandlerEntry W}
    (fine : (m.error == "") ≡ true) (registered : lookup m.topic handlers ≡ some entry) where
  prepare-eq-prepare_for : prepare_message codec handlers (some m) ≡ prepare_for codec entry m
  unfolding prepare_message
  prepare-eq-prepare_for = rw (fine, registered, prepare_message)

  prepare_bad_header :
      (before after : List (String × Bytes)) (key : String) (byte : ℕ) (bytes : Bytes)
      → m.headers ≡ some (before ++ (key, byte ∷ bytes) ∷ after)
      → codec.utf8 (byte ∷ bytes) ≡ none
      → prepare_message codec handlers (some m) ≡ err unicode_error
  unfolding prepare_for
  prepare_bad_header before after key byte bytes e bad =
      prepare-eq-prepare_for
      ∙ rw (e, decode_bad_header codec before after key byte bytes [] bad, prepare_for) refl

  prepare_bad_body :
      {d : Dict String String}
      → decode_headers codec (header_list m.headers) [] ≡ ok d
      → decode_body codec m.value ≡ none
      → prepare_message codec handlers (some m) ≡ ok none
  unfolding prepare_for
  prepare_bad_body e bad = prepare-eq-prepare_for ∙ rw (e, prepare_for) (ground arith)

  -- A message for a registered topic that has no error of its own, and one of whose header values is not
  -- UTF-8, raises UnicodeDecodeError out of `_prepare_message`, of `_handle_message`, and of `_handle_batch_messages` for each batch that
  -- holds it, whatever the other messages are.
  pub bad_header_raises :
      (before after : List (String × Bytes)) (key : String) (byte : ℕ) (bytes : Bytes)
      → m.headers ≡ some (before ++ (key, byte ∷ bytes) ∷ after)
      → codec.utf8 (byte ∷ bytes) ≡ none
      → (earlier later : List Message) (p : Process W)
      → (prepare_message codec handlers (some m) ≡ err unicode_error)
        × (handle_message codec handlers (some m) p ≡ err unicode_error)
        × (handle_batch_messages codec handlers (earlier ++ m ∷ later) p ≡ err unicode_error)
  unfolding handle_message handle_batch_messages
  bad_header_raises before after key byte bytes e bad earlier later p =
      let raises = prepare_bad_header before after key byte bytes e bad in
      (
        raises,
        rw (raises, handle_message) refl,
        rw (group_bad_message codec handlers m later raises earlier [], handle_batch_messages) refl,
      )

  pub bad_body_is_skipped :
      {d : Dict String String}
      → decode_headers codec (header_list m.headers) [] ≡ ok d
      → decode_body codec m.value ≡ none
      → (ms : List Message) (p : Process W)
      → (handle_message codec handlers (some m) p ≡ ok p)
        × (handle_batch_messages codec handlers (m ∷ ms) p
            ≡ handle_batch_messages codec handlers ms p)
  unfolding handle_message handle_batch_messages group_messages
  bad_body_is_skipped e bad ms p =
      let skipped = prepare_bad_body e bad in
      (rw (skipped, handle_message), rw (skipped, handle_batch_messages, group_messages))
