-- ===== src/Kafka/Dispatcher/Grouping.antt =====
-- `_handle_batch_messages`, first half: the messages of a batch by topic.
use advisor_backend.Common.{
  String, ◌≡◌, refl, Option, none, some, List, [], ◌∷◌, ◌++◌, append_assoc, sym, ◌∙◌, subst,
  append-nil, arith, ◌==◌, string_eq, if◌then◌else◌, Result, ok, err, ◌>>=◌,
}
use advisor_backend.Common.Dict.{lookup, lookup-put}
use advisor_backend.Json.{JsonValue}
use advisor_backend.Kafka.Message.{Message, Codec}
use advisor_backend.Kafka.Dispatcher.{
  Handlers, Groups, bodies_of, open_group, add_body, add_prepared, prepare_message, group_messages,
}

abbrev prepend : Option (String × JsonValue) → List (String × JsonValue) → List (String × JsonValue)
prepend none rest = rest
prepend (some tb) rest = tb ∷ rest

-- The prepared messages of a batch, in order, without those that are skipped.
pub prepare_all :
    {W : Type 0} → Codec → Handlers W → List Message → Result (List (String × JsonValue))
prepare_all codec handlers [] = ok []
prepare_all codec handlers (m ∷ ms) = do
  prepared ← prepare_message codec handlers (some m)
  rest ← prepare_all codec handlers ms
  ok (prepend prepared rest)

-- The bodies of one topic, in order.
pub bodies_for : String → List (String × JsonValue) → List JsonValue
bodies_for topic [] = []
bodies_for topic ((t, body) ∷ prepared) =
    (if t == topic then body ∷ [] else []) ++ bodies_for topic prepared

add_all : List (String × JsonValue) → Groups → Groups
add_all [] g = g
add_all (tb ∷ prepared) g = add_all prepared (add_body tb g)

abbrev add_to : Groups → Result (List (String × JsonValue)) → Result Groups
add_to g (ok prepared) = ok (add_all prepared g)
add_to g (err e) = err e

group-add_all :
    {W : Type 0} (codec : Codec) (handlers : Handlers W) (ms : List Message) (g : Groups)
    → group_messages codec handlers ms g ≡ add_to g (prepare_all codec handlers ms)
unfolding group_messages prepare_all add_all
group-add_all codec handlers [] g = refl
group-add_all codec handlers (m ∷ ms) g =
    step (prepare_message codec handlers (some m)) (group-add_all codec handlers ms)
  where
    rest : Result (List (String × JsonValue))
    rest = prepare_all codec handlers ms

    step :
        (r : Result (Option (String × JsonValue)))
        → ((g' : Groups) → group_messages codec handlers ms g' ≡ add_to g' rest)
        → (r >>= λ prepared. group_messages codec handlers ms (add_prepared prepared g))
          ≡ add_to g (r >>= λ prepared. rest >>= λ l. ok (prepend prepared l))
    step (ok none) ih = ground (arith, ih g)
    step (ok (some tb)) ih = ground (arith, ih (add_body tb g))
    step (err e) ih = refl

bodies-open_group :
    (t topic : String) (g : Groups)
    → bodies_of (lookup topic (open_group t g)) ≡ bodies_of (lookup topic g)
unfolding open_group
bodies-open_group t topic g =
    ground (arith, lookup-put {V = List JsonValue} t topic [] g, string_eq.same_iff t topic)

bodies-add_body :
    (t topic : String) (body : JsonValue) (g : Groups)
    → bodies_of (lookup topic (add_body (t, body) g))
      ≡ bodies_of (lookup topic g) ++ (if t == topic then body ∷ [] else [])
unfolding add_body
bodies-add_body t topic body g = rw lookup-put (
    ground (
      arith,
      bodies-open_group t topic g,
      append-nil (bodies_of (lookup topic g)),
      string_eq.same_iff t topic,
    ))

bodies-add_all :
    (topic : String) (prepared : List (String × JsonValue)) (g : Groups)
    → bodies_of (lookup topic (add_all prepared g))
      ≡ bodies_of (lookup topic g) ++ bodies_for topic prepared
unfolding add_all bodies_for
bodies-add_all topic [] g = simp append-nil
bodies-add_all topic ((t, body) ∷ prepared) g =
    rw (bodies-add_all topic prepared _, bodies-add_body, append_assoc)

add_to-eq-ok :
    (g₀ g : Groups) (r : Result (List (String × JsonValue)))
    → add_to g₀ r ≡ ok g
    → (prepared : List (String × JsonValue)) × (r ≡ ok prepared) × (add_all prepared g₀ ≡ g)
add_to-eq-ok g₀ g (ok prepared) e = (prepared, refl, cc)
add_to-eq-ok g₀ g (err x) e = cc

-- A batch whose headers decode is grouped without loss, repetition or reordering: under each topic
-- stand the bodies of that topic's prepared messages, in the order of the batch.
pub group-bodies :
    {W : Type 0} (codec : Codec) (handlers : Handlers W) (ms : List Message) (g : Groups)
    → group_messages codec handlers ms [] ≡ ok g
    → (prepared : List (String × JsonValue)) × (prepare_all codec handlers ms ≡ ok prepared)
      × ((topic : String) → bodies_of (lookup topic g) ≡ bodies_for topic prepared)
unfolding lookup
group-bodies codec handlers ms g e =
    let (prepared, all_prepared, made) =
      add_to-eq-ok [] g (prepare_all codec handlers ms)
        (sym (group-add_all codec handlers ms []) ∙ e) in
    (
      prepared,
      all_prepared,
      λ topic.
          subst (λ g'. bodies_of (lookup topic g') ≡ bodies_for topic prepared) made
            (bodies-add_all topic prepared []),
    )
