-- ===== src/Requests.antt =====
-- `retry_request` of api/advisor/api/utils.py. The network is a parameter: what becomes of the first
-- request, of the second, and so on. The waiting between two requests is left out.
pub mod Tries
use advisor_backend.Common.{
  ℕ, zero, suc, String, Bool, if◌then◌else◌, ltb, Exception, Result, ok, err, json_error,
  unicode_error, true,
}
use advisor_backend.Json.{JsonValue}

-- `is_text` where `content.decode()` succeeds; `json` is what `response.json()` does.
pub record Response : Type 0 where
  pub status_code : ℕ
  pub text : String
  pub is_text : Bool
  pub json : Result JsonValue

-- A connection error is one of Python's or of requests'; any other exception is `raises`.
pub data Try : Type 0 where
  answers : Response → Try
  connection_error : Try
  timeout : Try
  raises : Exception → Try

-- The response that stands where no request is answered.
abbrev pub no_connection : Response
no_connection = record {
  status_code = 599;
  text = "No connection made";
  is_text = true;
  json = err json_error;
}

module _ (retry_timeouts : Bool) (request : ℕ → Try) where
  -- One pass of the loop, `retry` being the requests made with this one; `next` goes on with it.
  unfoldable pub after_try :
      Try → ℕ → Response → (Response → Result Response × ℕ) → Result Response × ℕ
  after_try (answers r) retry response next =
      if ltb r.status_code 500
      then (ok r, retry)
      else if r.is_text
      then next r
      else (err unicode_error, retry)
  after_try connection_error retry response next = next response
  after_try timeout retry response next =
      if retry_timeouts then next response else (ok response, retry)
  after_try (raises e) retry response next = (err e, retry)

  -- The loop, with the requests that are left; it gives the number of requests made as well.
  unfoldable pub retry_loop : ℕ → ℕ → Response → Result Response × ℕ
  retry_loop zero retry response = (ok response, retry)
  retry_loop (suc left) retry response =
      after_try (request (suc retry)) (suc retry) response (retry_loop left (suc retry))

  unfoldable pub retry_request : ℕ → Result Response × ℕ
  retry_request max_retries = retry_loop max_retries 0 no_connection
