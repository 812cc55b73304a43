-- ===== src/Kafka/Message.antt =====
-- Messages, handlers and the decoding of bodies of api/advisor/kafka_utils.py.
use Prim.Native.Char.{code}
use advisor_backend.Common.{
  ℕ, String, Bool, ◌&&◌, Option, List, ◌==◌, nat_eq, string_eq, if◌then◌else◌, Result,
}
use advisor_backend.Json.{JsonValue}

abbrev pub Bytes : Type 0
Bytes = List ℕ

-- `error()` gives the empty text where there is no error; a header's value may be empty.
pub record Message : Type 0 where
  pub topic : String
  pub value : Bytes
  pub headers : Option (List (String × Bytes))
  pub partition : ℕ
  pub error : String

abbrev pub new_message : String → Bytes → Option (List (String × Bytes)) → Message
new_message topic value headers = record {
  topic = topic;
  value = value;
  headers = headers;
  partition = 0;
  error = "";
}

-- What the code takes from Python's codecs: `decode('utf-8')` and `json.loads`, `none` where they
-- raise, and `json.dumps(v).encode('utf-8')`.
pub record Codec : Type 0 where
  pub utf8 : Bytes → Option String
  pub loads : String → Option JsonValue
  pub dumps : JsonValue → Bytes

abbrev lstrip : ℕ → String → String
lstrip q String.[] = String.[]
lstrip q (String.◌∷◌ c s) = if code c == q then lstrip q s else String.◌∷◌ c s

abbrev rstrip : ℕ → String → String
rstrip q String.[] = String.[]
rstrip q (String.◌∷◌ c s) =
    let rest = rstrip q s in if (rest == "") && (code c == q) then "" else String.◌∷◌ c rest

-- s.strip(c)
unfoldable pub strip : ℕ → String → String
strip q s = lstrip q (rstrip q s)

-- A handler may change the world and set the dispatcher's `quit`; its returned value is ignored.
abbrev pub HandlerFunc : Type 0 → Type 0
HandlerFunc W = String → JsonValue → W → Bool → Result (Unit {0}) × W × Bool

pub record HandlerEntry (W : Type 0) : Type 0 where
  pub handler : HandlerFunc W
  pub filters : List (String × String)
  pub batch : Bool
