-- ===== src/Kafka/Dispatcher/Calls.antt =====
-- `_handle_batch_messages`, second half: the handler calls for the groups of a batch.
use advisor_backend.Common.{
  String, ◌≡◌, refl, Bool, true, false, ◌&&◌, Option, none, some, List, [], ◌∷◌, ◌++◌, string_eq,
  ok, err, append_assoc, append-nil, >>=-eq-ok, ok-injective, subst, ap, sym, ◌∙◌, ◌↔◌, key_error,
}
use advisor_backend.Common.Dict.{lookup, is_some}
use advisor_backend.Json.{JsonValue}
use advisor_backend.Kafka.Message.{Message, Codec, HandlerFunc, HandlerEntry}
use advisor_backend.Kafka.Dispatcher.{
  Signal, request_started, request_finished, Handlers, Groups, Process, group_messages, invocations,
  call_handler, call_each, run_groups, handle_batch_messages,
}
use advisor_backend.Kafka.Dispatcher.Registered.{AreRegistered, group-AreRegistered}

pub record Call (W : Type 0) : Type 0 where
  pub handler : HandlerFunc W
  pub topic : String
  pub payload : JsonValue

module _ {W : Type 0} where
  calls_for : HandlerEntry W → String → List JsonValue → List (Call W)
  calls_for entry topic [] = []
  calls_for entry topic (payload ∷ payloads) =
      record { handler = entry.handler; topic = topic; payload = payload }
      ∷ calls_for entry topic payloads

  abbrev calls_of_entry : Option (HandlerEntry W) → String → List JsonValue → List (Call W)
  calls_of_entry none topic bodies = []
  calls_of_entry (some entry) topic bodies = calls_for entry topic (invocations entry.batch bodies)

  -- The calls that the groups stand for, in order: one for the whole group of a batch handler, one
  -- for each body of another.
  pub calls_of : Handlers W → Groups → List (Call W)
  calls_of handlers [] = []
  calls_of handlers ((topic, bodies) ∷ groups) =
      calls_of_entry (lookup topic handlers) topic bodies ++ calls_of handlers groups

  -- Every call of the list returned, one after the other.
  pub data AllReturn : List (Call W) → Process W → Process W → Type 0 where
    finished : {p : Process W} → AllReturn [] p p
    returned :
        {c : Call W} {cs : List (Call W)} {p q r : Process W}
        → call_handler c.handler c.topic c.payload p ≡ (true, q)
        → AllReturn cs q r
        → AllReturn (c ∷ cs) p r

  pub run_calls : List (Call W) → Bool × Process W → Bool × Process W
  run_calls [] s = s
  run_calls (c ∷ cs) (success, p) =
      let (fine, q) = call_handler c.handler c.topic c.payload p in
      run_calls cs (success && fine, q)

  run_calls-append :
      (cs ds : List (Call W)) (s : Bool × Process W)
      → run_calls (cs ++ ds) s ≡ run_calls ds (run_calls cs s)
  unfolding run_calls
  run_calls-append [] ds s = refl
  run_calls-append (c ∷ cs) ds (success, p) = run_calls-append cs ds _

  call_each-run_calls :
      (entry : HandlerEntry W) (topic : String) (payloads : List JsonValue) (s : Bool × Process W)
      → call_each entry.handler topic payloads s ≡ run_calls (calls_for entry topic payloads) s
  unfolding call_each run_calls calls_for
  call_each-run_calls entry topic [] s = refl
  call_each-run_calls entry topic (payload ∷ payloads) (success, p) =
      call_each-run_calls entry topic payloads _

  run_groups-run_calls :
      (handlers : Handlers W) (groups : Groups) (s : Bool × Process W)
      → AreRegistered handlers groups
      → run_groups handlers groups s ≡ ok (run_calls (calls_of handlers groups) s)
  unfolding run_groups calls_of run_calls
  run_groups-run_calls handlers [] s h = refl
  run_groups-run_calls handlers ((topic, bodies) ∷ groups) s h =
      go (lookup topic handlers) h.0 (λ s'. run_groups-run_calls handlers groups s' h.1)
    where
      go :
          (o : Option (HandlerEntry W))
          → is_some o ≡ true
          → ((s' : Bool × Process W)
              → run_groups handlers groups s' ≡ ok (run_calls (calls_of handlers groups) s'))
          → elim o [
            | none ↦ err (key_error topic)
            | some entry ↦
                run_groups handlers groups
                  (call_each entry.handler topic (invocations entry.batch bodies) s)
          ]
            ≡ ok (run_calls (calls_of_entry o topic bodies ++ calls_of handlers groups) s)
      go none e ih = cc
      go (some entry) e ih = rw (ih, run_calls-append, call_each-run_calls)

  run_calls-fails : (cs : List (Call W)) (p : Process W) → (run_calls cs (false, p)).0 ≡ false
  unfolding run_calls
  run_calls-fails [] p = refl
  run_calls-fails (c ∷ cs) p = run_calls-fails cs _

  run_calls-AllReturn :
      (cs : List (Call W)) (p q : Process W) → run_calls cs (true, p) ≡ (true, q) → AllReturn cs p q
  unfolding run_calls
  run_calls-AllReturn [] p q e =
      subst (AllReturn [] p) (ap (λ (t : Bool × Process W). t.1) e) finished
  run_calls-AllReturn (c ∷ cs) p q e =
      go (call_handler c.handler c.topic c.payload p) refl e (λ m. run_calls-AllReturn cs m q)
    where
      go :
          (r : Bool × Process W)
          → call_handler c.handler c.topic c.payload p ≡ r
          → run_calls cs r ≡ (true, q)
          → ((m : Process W) → run_calls cs (true, m) ≡ (true, q) → AllReturn cs m q)
          → AllReturn (c ∷ cs) p q
      go (true, m) called rest ih = returned called (ih m rest)
      go (false, m) called rest ih =
          cc (run_calls-fails cs m, ap (λ (t : Bool × Process W). t.0) rest)

  AllReturn-run_calls :
      (cs : List (Call W)) (p q : Process W) → AllReturn cs p q → run_calls cs (true, p) ≡ (true, q)
  unfolding run_calls
  AllReturn-run_calls cs p q finished = refl
  AllReturn-run_calls cs p q (returned e rest) = rw e (AllReturn-run_calls _ _ q rest)

  -- The signals around each of the calls.
  abbrev pub signals_around : List (Call W) → List Signal
  signals_around [] = []
  signals_around (c ∷ cs) = request_started ∷ request_finished ∷ signals_around cs

  signals-run_calls :
      (cs : List (Call W)) (s : Bool × Process W)
      → (run_calls cs s).1.signals ≡ s.1.signals ++ signals_around cs
  unfolding run_calls call_handler
  signals-run_calls [] s = sym (append-nil s.1.signals)
  signals-run_calls (c ∷ cs) (success, p) =
      signals-run_calls cs _
      ∙ append_assoc p.signals (request_started ∷ request_finished ∷ []) (signals_around cs)

  pub handle_batch-run_calls :
      (codec : Codec) (handlers : Handlers W) (ms : List Message) (p : Process W) (g : Groups)
      → group_messages codec handlers ms [] ≡ ok g
      → handle_batch_messages codec handlers ms p ≡ ok (run_calls (calls_of handlers g) (true, p))
  unfolding handle_batch_messages
  handle_batch-run_calls codec handlers ms p g e =
      rw e (
        run_groups-run_calls handlers g (true, p) (group-AreRegistered codec handlers ms [] g tt e))

  -- A batch is reported as handled, with the process state `q`, exactly when its headers decode and
  -- every handler call for its groups, made in order from `p`, returns without an exception.
  pub handle_batch-AllReturn :
      (codec : Codec) (handlers : Handlers W) (ms : List Message) (p q : Process W)
      → (handle_batch_messages codec handlers ms p ≡ ok (true, q)) ↔ (
          (g : Groups) × (group_messages codec handlers ms [] ≡ ok g)
          × AllReturn (calls_of handlers g) p q)
  unfolding handle_batch_messages
  handle_batch-AllReturn codec handlers ms p q = (
    λ e.
        let (g, grouped, rest) = >>=-eq-ok (group_messages codec handlers ms []) _ e in
        (
          g,
          grouped,
          run_calls-AllReturn _ p q
              (ok-injective (sym (handle_batch-run_calls codec handlers ms p g grouped) ∙ e)),
        ),
    λ (g, grouped, all_return).
        handle_batch-run_calls codec handlers ms p g grouped
        ∙ ap ok (AllReturn-run_calls _ p q all_return),
  )

  -- A handled batch, successful or not, sends for each handler call a `request_started` and then a
  -- `request_finished`, whether or not the call raises, and no other signal.
  pub handle_batch-signals :
      (codec : Codec) (handlers : Handlers W) (ms : List Message) (p q : Process W) (success : Bool)
      (g : Groups)
      → group_messages codec handlers ms [] ≡ ok g
      → handle_batch_messages codec handlers ms p ≡ ok (success, q)
      → q.signals ≡ p.signals ++ signals_around (calls_of handlers g)
  handle_batch-signals codec handlers ms p q success g grouped e =
      let same = ok-injective (sym (handle_batch-run_calls codec handlers ms p g grouped) ∙ e) in
      rw (← ap (λ (t : Bool × Process W). t.1) same)
        (signals-run_calls (calls_of handlers g) (true, p))
