-- ===== src/Flash/Client/Answers.antt =====
-- What a lookup or a write of app/core/flash.py takes for an answer.
use brainstorm_server.Common.{
  ℕ, zero, suc, ◌≤◌, ◌<◌, ◌≡◌, ◌≢◌, refl, sym, subst, ◌⊎◌, inl, inr, Bool, true, false, not, Option,
  none, some, ◌||◌, arith, Bool-cases, ltb,
}
use brainstorm_server.Flash.Client.{
  HttpFault, Response, Attempt, responded, raised, Reply, response, unreachable, escaped, Body,
  found, absent, credential_error, declined, unavailable, after_attempt, after_last, parsed,
  meaning, connect_retries, attempts_from, body_of, read_body, write_body, write_retryable,
  retryable,
}

module _ {ℓ} {Json : Type ℓ} (request : ℕ → Attempt Json) where
  -- A response is that of the last request made.
  AnsweredBy : ℕ → Reply Json → ℕ → Type ℓ
  AnsweredBy n (response r) made = (m : ℕ) × (made ≡ suc m) × (n ≤ m) × (request m ≡ responded r)
  AnsweredBy n unreachable made = Unit
  AnsweredBy n (escaped f) made = Unit

  module _ (may_retry : HttpFault → Bool) (retry_5xx : Bool) where
    last_lem :
        (n : ℕ) (a : Attempt Json) → request n ≡ a → AnsweredBy n (after_last may_retry a) (suc n)
    unfolding AnsweredBy
    last_lem n (responded r) e = (n, refl, omega arith, e)
    last_lem n (raised f) e = elim (Bool-cases (may_retry f)) [ inl w ↦ rw w tt | inr w ↦ rw w tt ]

    weaken : (n : ℕ) (o : Reply Json) (made : ℕ) → AnsweredBy (suc n) o made → AnsweredBy n o made
    unfolding AnsweredBy
    weaken n (response r) made (m, e, le, a) = (m, e, omega arith, a)
    weaken n unreachable made h = tt
    weaken n (escaped f) made h = tt

    attempt_lem :
        (n : ℕ) (a : Attempt Json) (rest : Reply Json × ℕ)
        → request n ≡ a
        → AnsweredBy (suc n) rest.0 rest.1
        → AnsweredBy n
            (after_attempt may_retry retry_5xx a (suc n) rest).0
            (after_attempt may_retry retry_5xx a (suc n) rest).1
    unfolding AnsweredBy
    attempt_lem n (raised f) rest e later = elim (Bool-cases (may_retry f)) [
      | inl w ↦ rw w (weaken n rest.0 rest.1 later)
      | inr w ↦ rw w tt
    ]
    attempt_lem n (responded r) rest e later =
        elim (Bool-cases (not retry_5xx || ltb r.status_code 500)) [
          | inl w ↦ rw w (n, refl, omega arith, e)
          | inr w ↦ rw w (weaken n rest.0 rest.1 later)
        ]

    attempts_from-AnsweredBy :
        (left n : ℕ)
        → AnsweredBy n
            (attempts_from request may_retry retry_5xx n left).0
            (attempts_from request may_retry retry_5xx n left).1
    unfolding attempts_from
    attempts_from-AnsweredBy zero n = last_lem n (request n) refl
    attempts_from-AnsweredBy (suc left) n =
        attempt_lem n (request n) (attempts_from request may_retry retry_5xx (suc n) left) refl
          (attempts_from-AnsweredBy left (suc n))

  parsed_lem : (o : Option Json) → parsed o ≢ absent
  parsed_lem none = ground arith
  parsed_lem (some json) = ground arith

  -- A status that says the subscription is not there.
  body_of-absent :
      (r : Response Json) (absent_on_404 refusal_on_4xx : Bool)
      → body_of r absent_on_404 refusal_on_4xx ≡ absent
      → (r.status_code ≡ 404) × (absent_on_404 ≡ true)
  body_of-absent r absent_on_404 refusal_on_4xx h =
      (ground (arith, h, parsed_lem r.json), ground (arith, h, parsed_lem r.json))

  body_of-found :
      (r : Response Json) (absent_on_404 refusal_on_4xx : Bool) (json : Json)
      → body_of r absent_on_404 refusal_on_4xx ≡ found json
      → (r.status_code < 400) × (r.json ≡ some json)
  body_of-found r absent_on_404 refusal_on_4xx json h = (ground (arith, h), ground (arith, h))

  abbrev pub is_answer : Body Json → Bool
  is_answer (found json) = true
  is_answer absent = true
  is_answer _ = false

  -- The last request made was answered: 404 where that is absence, or an object with no error.
  unfoldable pub Answered : Bool → Body Json × ℕ → Type ℓ
  Answered absent_on_404 (body, made) =
      (m : ℕ) × (r : Response Json) × (made ≡ suc m)
      × (request m ≡ responded r)
      × (((body ≡ absent) × (r.status_code ≡ 404) × (absent_on_404 ≡ true))
          ⊎ ((json : Json) × (body ≡ found json) × (r.status_code < 400) × (r.json ≡ some json)))

  read_as :
      (absent_on_404 refusal_on_4xx : Bool) (m : ℕ) (r : Response Json) (body : Body Json)
      → request m ≡ responded r
      → body_of r absent_on_404 refusal_on_4xx ≡ body
      → is_answer body ≡ true
      → Answered absent_on_404 (body, suc m)
  unfolding Answered
  read_as absent_on_404 refusal_on_4xx m r (found json) e b h =
      let (fine, same) = body_of-found r absent_on_404 refusal_on_4xx json b in
      (m, r, refl, e, inr (json, refl, fine, same))
  read_as absent_on_404 refusal_on_4xx m r absent e b h =
      let (missing, allowed) = body_of-absent r absent_on_404 refusal_on_4xx b in
      (m, r, refl, e, inl (refl, missing, allowed))
  read_as absent_on_404 refusal_on_4xx m r credential_error e b h = absurd (ground (arith, h))
  read_as absent_on_404 refusal_on_4xx m r (declined n) e b h = absurd (ground (arith, h))
  read_as absent_on_404 refusal_on_4xx m r unavailable e b h = absurd (ground (arith, h))

  meaning-Answered :
      (absent_on_404 refusal_on_4xx : Bool) (o : Reply Json) (made : ℕ)
      → AnsweredBy 0 o made
      → is_answer (meaning o absent_on_404 refusal_on_4xx) ≡ true
      → Answered absent_on_404 (meaning o absent_on_404 refusal_on_4xx, made)
  unfolding AnsweredBy
  meaning-Answered absent_on_404 refusal_on_4xx (response r) made (m, e, le, a) h =
      subst (λ k. Answered absent_on_404 (body_of r absent_on_404 refusal_on_4xx, k)) (sym e)
        (read_as absent_on_404 refusal_on_4xx m r _ a refl h)
  meaning-Answered absent_on_404 refusal_on_4xx unreachable made w h = absurd (ground (arith, h))
  meaning-Answered absent_on_404 refusal_on_4xx (escaped f) made w h = absurd (ground (arith, h))

  -- A lookup that returns, an object or `None`, was answered so by Flash at its last request: with 404,
  -- where that is absence, or with an object and no error status. No outage is read as absence.
  pub read_body-Answered :
      (absent_on_404 : Bool)
      → is_answer (read_body request absent_on_404).0 ≡ true
      → Answered absent_on_404 (read_body request absent_on_404)
  unfolding read_body
  read_body-Answered absent_on_404 h =
      meaning-Answered absent_on_404 false _ _
        (attempts_from-AnsweredBy retryable true connect_retries 0) h

  -- The same of a write, where 404 is always absence.
  pub write_body-Answered :
      is_answer (write_body request).0 ≡ true → Answered true (write_body request)
  unfolding write_body
  write_body-Answered h =
      meaning-Answered true true _ _
        (attempts_from-AnsweredBy write_retryable false connect_retries 0) h
