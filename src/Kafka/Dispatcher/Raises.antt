-- ===== src/Kafka/Dispatcher/Raises.antt =====
-- `_handle_batch_messages`: the exceptions that leave it.
use advisor_backend.Common.{
  String, ◌≡◌, refl, Bool, true, false, Option, none, some, List, [], ◌∷◌, ◌==◌, string_eq,
  if◌then◌else◌, Result, ok, err, ◌>>=◌, err-injective, not, ap, sym, ◌∙◌, Exception, unicode_error,
}
use advisor_backend.Common.Dict.{Dict, lookup, put}
use advisor_backend.Json.{JsonValue}
use advisor_backend.Kafka.Message.{Bytes, Message, Codec, HandlerEntry}
use advisor_backend.Kafka.Dispatcher.{
  Handlers, Groups, Process, add_prepared, prepare_message, prepare_for, group_messages, run_groups,
  handle_batch_messages, decode_headers, header_list, filters_matched, filters_matched,
}
use advisor_backend.Kafka.Dispatcher.Calls.{handle_batch-run_calls}

abbrev pub RaisesOnlyUnicode {ℓ} : {A : Type ℓ} → Result A → Type 0
RaisesOnlyUnicode (ok a) = Unit
RaisesOnlyUnicode (err e) = e ≡ unicode_error

RaisesOnlyUnicode-bind :
    {A B : Type 0} (m : Result A) (f : A → Result B)
    → RaisesOnlyUnicode m
    → ((a : A) → RaisesOnlyUnicode (f a))
    → RaisesOnlyUnicode (m >>= f)
RaisesOnlyUnicode-bind (ok a) f h k = k a
RaisesOnlyUnicode-bind (err e) f h k = h

if_RaisesOnlyUnicode :
    {A : Type 0} (b : Bool) (x y : Result A)
    → RaisesOnlyUnicode x
    → RaisesOnlyUnicode y
    → RaisesOnlyUnicode (if b then x else y)
if_RaisesOnlyUnicode true x y hx hy = hx
if_RaisesOnlyUnicode false x y hx hy = hy

decode_headers-RaisesOnlyUnicode :
    (codec : Codec) (headers : List (String × Bytes)) (d : Dict String String)
    → RaisesOnlyUnicode (decode_headers codec headers d)
unfolding decode_headers
decode_headers-RaisesOnlyUnicode codec [] d = tt
decode_headers-RaisesOnlyUnicode codec ((key, []) ∷ headers) d =
    decode_headers-RaisesOnlyUnicode codec headers d
decode_headers-RaisesOnlyUnicode codec ((key, byte ∷ bytes) ∷ headers) d =
    let ih = λ (value : String). decode_headers-RaisesOnlyUnicode codec headers (put key value d) in
    elim (codec.utf8 (byte ∷ bytes))
      as (λ o. RaisesOnlyUnicode (elim o [
        | none ↦ err unicode_error
        | some value ↦ decode_headers codec headers (put key value d)
      ])) [ none ↦ refl | some value ↦ ih value ]

module _ {W : Type 0} where
  prepare_for-RaisesOnlyUnicode :
      (codec : Codec) (entry : HandlerEntry W) (m : Message)
      → RaisesOnlyUnicode (prepare_for codec entry m)
  unfolding prepare_for
  prepare_for-RaisesOnlyUnicode codec entry m =
      RaisesOnlyUnicode-bind (decode_headers codec (header_list m.headers) []) _
        (decode_headers-RaisesOnlyUnicode codec (header_list m.headers) [])
        (λ d. if_RaisesOnlyUnicode (filters_matched d entry.filters) _ _ tt tt)

  pub prepare_message-RaisesOnlyUnicode :
      (codec : Codec) (handlers : Handlers W) (m : Message)
      → RaisesOnlyUnicode (prepare_message codec handlers (some m))
  unfolding prepare_message
  prepare_message-RaisesOnlyUnicode codec handlers m =
      if_RaisesOnlyUnicode (not (m.error == "")) _ _ tt
        (elim (lookup m.topic handlers)
          as (λ o.
            RaisesOnlyUnicode {A = Option (String × JsonValue)}
              (elim o [ none ↦ ok none | some entry ↦ prepare_for codec entry m ])) [
                | none ↦ tt
                | some entry ↦ prepare_for-RaisesOnlyUnicode codec entry m
              ])

  group_messages-RaisesOnlyUnicode :
      (codec : Codec) (handlers : Handlers W) (ms : List Message) (g : Groups)
      → RaisesOnlyUnicode (group_messages codec handlers ms g)
  unfolding group_messages
  group_messages-RaisesOnlyUnicode codec handlers [] g = tt
  group_messages-RaisesOnlyUnicode codec handlers (m ∷ ms) g =
      let ih = group_messages-RaisesOnlyUnicode codec handlers ms in
      RaisesOnlyUnicode-bind (prepare_message codec handlers (some m)) _
        (prepare_message-RaisesOnlyUnicode codec handlers m)
        (λ prepared. ih (add_prepared prepared g))

  -- The only exception that leaves `_handle_batch_messages` is the `UnicodeDecodeError` of a header
  -- value; above all, the look-up of a topic's handler raises no `KeyError`.
  pub handle_batch-error :
      (codec : Codec) (handlers : Handlers W) (ms : List Message) (p : Process W) (e : Exception)
      → handle_batch_messages codec handlers ms p ≡ err e
      → e ≡ unicode_error
  unfolding handle_batch_messages
  handle_batch-error codec handlers ms p e h =
      go (group_messages codec handlers ms []) refl
        (group_messages-RaisesOnlyUnicode codec handlers ms [])
    where
      go :
          (r : Result Groups)
          → group_messages codec handlers ms [] ≡ r
          → RaisesOnlyUnicode r
          → e ≡ unicode_error
      go (ok g) made only = cc (handle_batch-run_calls codec handlers ms p g made)
      go (err x) made only =
          err-injective
            (sym h ∙ ap (λ (t : Result Groups). t >>= λ g. run_groups handlers g (true, p)) made)
          ∙ only
