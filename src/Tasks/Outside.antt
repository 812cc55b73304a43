-- ===== src/Tasks/Outside.antt =====
-- What the tasks service uses of Python, Django and other services. Each may raise.
use Prim.Native.Char.{Char}
use advisor_backend.Common.{ℕ, String, Bool, Option, Result}
use advisor_backend.Json.{JsonValue}
use advisor_backend.Requests.{Try}
use advisor_backend.Tasks.Models.{LogLine}

-- `uuid_of` is the conversion of a value that is compared with a UUID, `none` for null; `text_of`
-- gives the text of a log line. `dispatcher` and `s3` are the requests for the output of a run and for
-- an upload; `dispatcher_set` says whether the dispatcher's URL and key are configured.
pub record Outside : Type 0 where
  pub loads : String → Result JsonValue
  pub parse_datetime : JsonValue → Result (Option ℕ)
  pub uuid_of : JsonValue → Result (Option String)
  pub upper : String → String
  pub is_space : Char → Bool
  pub text_of : LogLine → String
  pub dispatcher_set : Bool
  pub dispatcher : String → ℕ → Try
  pub s3 : JsonValue → ℕ → Try
  pub send_tracker : JsonValue → Result (Unit {0})
