-- ===== src/Requests/Tries.antt =====
-- How many requests `retry_request` makes, and which response it returns.
use native.Mathlib.Decide.{dec_lt}
use advisor_backend.Common.{
  ℕ, zero, suc, ◌+◌, ◌≤◌, ◌<◌, ◌≡◌, refl, sym, subst, Bool, true, false, ltb, Result, ok, err, ◌⊎◌,
  inl, inr, arith, unicode_error, if◌then◌else◌,
}
use advisor_backend.Requests.{
  Response, Try, answers, connection_error, timeout, raises, no_connection, after_try, retry_loop,
  retry_request,
}

-- The last response among the first requests.
abbrev kept : Try → Response → Response
kept (answers r) response = r
kept connection_error response = response
kept timeout response = response
kept (raises e) response = response

abbrev pub last_response : (ℕ → Try) → ℕ → Response
last_response request zero = no_connection
last_response request (suc n) = kept (request (suc n)) (last_response request n)

-- What calls for another request: a server failure, a connection error, and a timeout on demand.
abbrev pub IsRetried : Bool → Try → Type 0
IsRetried retry_timeouts (answers r) = (500 ≤ r.status_code) × (r.is_text ≡ true)
IsRetried retry_timeouts connection_error = Unit
IsRetried retry_timeouts timeout = retry_timeouts ≡ true
IsRetried retry_timeouts (raises e) = ⊥

-- What a request that ends the loop leaves: its exception, or the last response.
abbrev pub IsFinal : Bool → Try → Response → Result Response → Type 0
IsFinal retry_timeouts (answers r) last result =
    ((r.status_code < 500) × (result ≡ ok r))
    ⊎ ((500 ≤ r.status_code) × (r.is_text ≡ false) × (result ≡ err unicode_error))
IsFinal retry_timeouts connection_error last result = ⊥
IsFinal retry_timeouts timeout last result = (retry_timeouts ≡ false) × (result ≡ ok last)
IsFinal retry_timeouts (raises e) last result = result ≡ err e

-- `n` requests were made: none behind a final one, and no more than allowed.
pub record EndsAt (retry_timeouts : Bool) (request : ℕ → Try) (max_retries : ℕ)
    (result : Result Response) (n : ℕ) : Type 0 where
  pub bounded : n ≤ max_retries
  pub retried : (k : ℕ) → suc k < n → IsRetried retry_timeouts (request (suc k))
  pub ended :
      ((n ≡ max_retries)
        × (result ≡ ok (last_response request n))
        × ((k : ℕ) → k < n → IsRetried retry_timeouts (request (suc k))))
      ⊎ ((m : ℕ) × (n ≡ suc m)
          × IsFinal retry_timeouts (request (suc m)) (last_response request m) result)

lt_or_eq : (k n : ℕ) → k < suc n → (k < n) ⊎ (k ≡ n)
lt_or_eq k n below = elim (dec_lt k n) [ yes p ↦ inl p | no p ↦ inr (omega arith) ]

module _ (retry_timeouts : Bool) (request : ℕ → Try) where
  abbrev AllRetried : ℕ → Type 0
  AllRetried n = (k : ℕ) → k < n → IsRetried retry_timeouts (request (suc k))

  AllRetried-suc :
      (n : ℕ) → AllRetried n → IsRetried retry_timeouts (request (suc n)) → AllRetried (suc n)
  AllRetried-suc n all here k below = elim (lt_or_eq k n below) [
    | inl earlier ↦ all k earlier
    | inr same ↦ subst (λ j. IsRetried retry_timeouts (request (suc j))) (sym same) here
  ]

  abbrev EndsWith : ℕ → Result Response × ℕ → Type 0
  EndsWith max_retries (result, n) = EndsAt retry_timeouts request max_retries result n

  -- One pass of the loop: it ends here, or the rest of the loop ends it.
  after_try-EndsWith :
      (max_retries retry : ℕ) (next : Response → Result Response × ℕ)
      → suc retry ≤ max_retries
      → AllRetried retry
      → (AllRetried (suc retry) → EndsWith max_retries (next (last_response request (suc retry))))
      → EndsWith max_retries (
          after_try retry_timeouts request
            (request (suc retry))
            (suc retry)
            (last_response request retry)
            next)
  unfolding after_try
  after_try-EndsWith max_retries retry next room all rest = go (request (suc retry)) refl
    where
      ends :
          (t : Try) (result : Result Response)
          → request (suc retry) ≡ t
          → IsFinal retry_timeouts t (last_response request retry) result
          → EndsAt retry_timeouts request max_retries result (suc retry)
      ends t result same final = record {
        bounded = room;
        retried = λ k below. all k (omega arith);
        ended = inr (
          retry,
          refl,
          subst (λ t'. IsFinal retry_timeouts t' (last_response request retry) result) (sym same)
              final,
        );
      }

      goes_on :
          (t : Try)
          → request (suc retry) ≡ t
          → IsRetried retry_timeouts t
          → EndsWith max_retries (next (kept t (last_response request retry)))
      goes_on t same again =
          subst (λ t'. EndsWith max_retries (next (kept t' (last_response request retry)))) same
            (rest (AllRetried-suc retry all (subst (IsRetried retry_timeouts) (sym same) again)))

      by_answer :
          (r : Response)
          → request (suc retry) ≡ answers r
          → (small : Bool) → ltb r.status_code 500 ≡ small
          → (text : Bool) → r.is_text ≡ text
          → EndsWith max_retries (
              if small
              then (ok r, suc retry)
              else if text
              then next r
              else (err unicode_error, suc retry))
      by_answer r same true small text e = ends (answers r) (ok r) same (inl (ground arith, refl))
      by_answer r same false big true e = goes_on (answers r) same (ground arith, e)
      by_answer r same false big false e =
          ends (answers r) (err unicode_error) same (inr (ground arith, e, refl))

      timed_out :
          request (suc retry) ≡ timeout
          → (again : Bool) → retry_timeouts ≡ again
          → EndsWith max_retries (
              if again
              then next (last_response request retry)
              else (ok (last_response request retry), suc retry))
      timed_out same true e = goes_on timeout same e
      timed_out same false e = ends timeout (ok (last_response request retry)) same (e, refl)

      go :
          (t : Try)
          → request (suc retry) ≡ t
          → EndsWith max_retries
              (after_try retry_timeouts request t (suc retry) (last_response request retry) next)
      go (answers r) same = by_answer r same (ltb r.status_code 500) refl r.is_text refl
      go connection_error same = goes_on connection_error same tt
      go timeout same = timed_out same retry_timeouts refl
      go (raises e) same = ends (raises e) (err e) same refl

  retry_loop-EndsWith :
      (left retry max_retries : ℕ)
      → retry + left ≡ max_retries
      → AllRetried retry
      → EndsWith max_retries
          (retry_loop retry_timeouts request left retry (last_response request retry))
  unfolding retry_loop
  retry_loop-EndsWith zero retry max_retries sum all = record {
    bounded = omega arith;
    retried = λ k below. all k (omega arith);
    ended = inl (omega arith, refl, all);
  }
  retry_loop-EndsWith (suc left) retry max_retries sum all =
      after_try-EndsWith max_retries retry (retry_loop retry_timeouts request left (suc retry))
        (omega arith) all (retry_loop-EndsWith left (suc retry) max_retries (omega arith))

-- Whatever becomes of its requests, `retry_request` makes at most `max_retries` of them, and each but the
-- last was one to retry: a failure of the server with a text, a connection error, or a timeout where
-- these are retried. Either all the requests were made and were to be retried, and it returns the last
-- response, or that of status 599 where there was none; or the last request ended the loop: with its
-- response below 500, by raising for a failure whose content is no text, with the last response
-- before a timeout, or with its exception.
pub retry_request-EndsAt :
    (retry_timeouts : Bool) (request : ℕ → Try) (max_retries : ℕ)
    → EndsAt retry_timeouts request max_retries
        (retry_request retry_timeouts request max_retries).0
        (retry_request retry_timeouts request max_retries).1
unfolding retry_request
retry_request-EndsAt retry_timeouts request max_retries =
    retry_loop-EndsWith retry_timeouts request max_retries 0 max_retries (omega arith)
      (λ k below. absurd (omega arith))
