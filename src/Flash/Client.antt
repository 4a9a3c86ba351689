-- ===== src/Flash/Client.antt =====
-- The requests of app/core/flash.py: the retries, and what an answer of Flash means. What httpx does
-- with each attempt is a parameter, an attempt's number giving a response or an exception. The
-- backoff between attempts is left out.
pub mod Requests
pub mod Answers
pub mod Tests
use brainstorm_server.Common.{
  ℕ, zero, suc, Bool, true, false, not, Option, none, some, ◌&&◌, ◌||◌, ◌==◌, ltb, leb,
  if◌then◌else◌,
}

-- The exceptions of httpx that the code names, and any other.
pub data HttpFault : Type 0 where
  connect_timeout : HttpFault
  connect_error : HttpFault
  pool_timeout : HttpFault
  read_timeout : HttpFault
  read_error : HttpFault
  other_exception : HttpFault

-- `_RETRYABLE`
abbrev pub retryable : HttpFault → Bool
retryable other_exception = false
retryable _ = true

-- `_WRITE_RETRYABLE`
abbrev pub write_retryable : HttpFault → Bool
write_retryable connect_timeout = true
write_retryable connect_error = true
write_retryable pool_timeout = true
write_retryable _ = false

abbrev pub connect_retries : ℕ
connect_retries = 3

module _ {ℓ} (Json : Type ℓ) where
  -- A response: its status, and its body where that is a JSON object.
  pub record Response : Type ℓ where
    pub status_code : ℕ
    pub json : Option Json

  pub data Attempt : Type ℓ where
    responded : Response → Attempt
    raised : HttpFault → Attempt

  -- How the loop ends: with a response, with `FlashUnavailable`, or with an exception that is not
  -- to be retried.
  pub data Reply : Type ℓ where
    response : Response → Reply
    unreachable : Reply
    escaped : HttpFault → Reply

  -- What a body means: an object, `None` for absence, or one of the exceptions.
  pub data Body : Type ℓ where
    found : Json → Body
    absent : Body
    credential_error : Body
    declined : ℕ → Body
    unavailable : Body

module _ {ℓ} {Json : Type ℓ} where
  -- The end of one attempt that is not the last, and of the last. `next` counts the requests made.
  abbrev pub after_attempt :
      (HttpFault → Bool) → Bool → Attempt Json → ℕ → Reply Json × ℕ → Reply Json × ℕ
  after_attempt may_retry retry_5xx (raised f) next rest =
      if may_retry f then rest else (escaped f, next)
  after_attempt may_retry retry_5xx (responded r) next rest =
      if not retry_5xx || ltb r.status_code 500 then (response r, next) else rest

  abbrev pub after_last : (HttpFault → Bool) → Attempt Json → Reply Json
  after_last may_retry (raised f) = if may_retry f then unreachable else escaped f
  after_last may_retry (responded r) = response r

  -- The loop from attempt `n`, with `left` more after it.
  unfoldable pub attempts_from :
      (ℕ → Attempt Json) → (HttpFault → Bool) → Bool → ℕ → ℕ → Reply Json × ℕ
  attempts_from request may_retry retry_5xx n zero = (after_last may_retry (request n), suc n)
  attempts_from request may_retry retry_5xx n (suc left) =
      after_attempt may_retry retry_5xx (request n) (suc n)
        (attempts_from request may_retry retry_5xx (suc n) left)

  -- `_with_retries`, with the number of requests made.
  abbrev pub with_retries : (ℕ → Attempt Json) → (HttpFault → Bool) → Bool → Reply Json × ℕ
  with_retries request may_retry retry_5xx =
      attempts_from request may_retry retry_5xx 0 connect_retries

  abbrev pub get_with_retries : (ℕ → Attempt Json) → Reply Json × ℕ
  get_with_retries request = with_retries request retryable true

  abbrev pub send_with_retries : (ℕ → Attempt Json) → Reply Json × ℕ
  send_with_retries request = with_retries request write_retryable false

  abbrev pub parsed : Option Json → Body Json
  parsed none = unavailable
  parsed (some json) = found json

  abbrev pub body_of : Response Json → Bool → Bool → Body Json
  body_of r absent_on_404 refusal_on_4xx =
      if r.status_code == 401 || r.status_code == 403
      then credential_error
      else if r.status_code == 404 && absent_on_404
      then absent
      else if refusal_on_4xx && (leb 400 r.status_code && ltb r.status_code 500)
      then declined r.status_code
      else if leb 400 r.status_code
      then unavailable
      else parsed r.json

  abbrev pub meaning : Reply Json → Bool → Bool → Body Json
  meaning (response r) absent_on_404 refusal_on_4xx = body_of r absent_on_404 refusal_on_4xx
  meaning unreachable absent_on_404 refusal_on_4xx = unavailable
  meaning (escaped f) absent_on_404 refusal_on_4xx = unavailable

  unfoldable pub read_body : (ℕ → Attempt Json) → Bool → Body Json × ℕ
  read_body request absent_on_404 =
      (meaning (get_with_retries request).0 absent_on_404 false, (get_with_retries request).1)

  unfoldable pub write_body : (ℕ → Attempt Json) → Body Json × ℕ
  write_body request =
      (meaning (send_with_retries request).0 true true, (send_with_retries request).1)
