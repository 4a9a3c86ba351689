-- ===== src/Flash/Client/Requests.antt =====
-- What the retries of app/core/flash.py send, and what they come to.
use brainstorm_server.Common.{
  ℕ, zero, suc, ◌+◌, ◌≤◌, ◌<◌, ◌≡◌, refl, sym, subst, ◌∙◌, inl, inr, Bool, true, false, List, [],
  ◌∷◌, arith, Bool-cases, not, ltb,
}
use brainstorm_server.Table.Where.{All, count}
use brainstorm_server.Flash.Client.{
  HttpFault, connect_timeout, connect_error, pool_timeout, read_timeout, read_error,
  other_exception, retryable, write_retryable, Response, Attempt, responded, raised, Reply,
  response, after_attempt, connect_retries, attempts_from, body_of, read_body, write_body,
}

module _ {ℓ} {Json : Type ℓ} (request : ℕ → Attempt Json) where
  -- The `k` attempts from `n` on.
  abbrev pub attempts : ℕ → ℕ → List (Attempt Json)
  attempts n zero = []
  attempts n (suc k) = request n ∷ attempts (suc n) k

  -- Whether the request of an attempt may have reached Flash, by what is said of the exceptions.
  abbrev pub may_reach : (HttpFault → Bool) → Attempt Json → Bool
  may_reach leaves (responded r) = true
  may_reach leaves (raised f) = leaves f

  module _ (leaves : HttpFault → Bool)
      (never_left : (leaves connect_timeout ≡ false)
        × (leaves connect_error ≡ false)
        × (leaves pool_timeout ≡ false)) where
    unsent : (f : HttpFault) → write_retryable f ≡ true → leaves f ≡ false
    unsent connect_timeout h = never_left.0
    unsent connect_error h = never_left.1
    unsent pool_timeout h = never_left.2
    unsent read_timeout h = absurd (ground (arith, h))
    unsent read_error h = absurd (ground (arith, h))
    unsent other_exception h = absurd (ground (arith, h))

    -- A run from attempt `n` makes one more than `k` requests, of which one at most may have reached
    -- Flash.
    abbrev SentOnce : ℕ → ℕ → ℕ → Type 0
    SentOnce n left made =
        (k : ℕ) × (made ≡ n + suc k)
        × (k ≤ left)
        × (count (may_reach leaves) (attempts n (suc k)) ≤ 1)

    one_attempt : (n left : ℕ) → SentOnce n left (suc n)
    unfolding count
    one_attempt n left = (0, omega arith, omega arith, ground arith)

    one_more :
        (n left made : ℕ)
        → may_reach leaves (request n) ≡ false
        → SentOnce (suc n) left made
        → SentOnce n (suc left) made
    unfolding count
    one_more n left made h (k, m, le, once) = (suc k, omega arith, omega arith, rw h once)

    attempt-SentOnce :
        (left n : ℕ) (a : Attempt Json) (rest : Reply Json × ℕ)
        → request n ≡ a
        → SentOnce (suc n) left rest.1
        → SentOnce n (suc left) (after_attempt write_retryable false a (suc n) rest).1
    attempt-SentOnce left n (responded r) rest e later = one_attempt n (suc left)
    attempt-SentOnce left n (raised f) rest e later = elim (Bool-cases (write_retryable f)) [
      | inr w ↦ rw w (one_attempt n (suc left))
      | inl w ↦ rw w (one_more n left rest.1 (rw e (unsent f w)) later)
    ]

    sends-SentOnce :
        (left n : ℕ) → SentOnce n left (attempts_from request write_retryable false n left).1
    unfolding attempts_from
    sends-SentOnce zero n = one_attempt n 0
    sends-SentOnce (suc left) n =
        attempt-SentOnce left n (request n)
          (attempts_from request write_retryable false (suc n) left) refl
          (sends-SentOnce left (suc n))

    -- Where a failure to connect, or to get a connection, says that no request left: of the requests of
    -- one write, four at most and one at least, no two can have reached Flash.
    pub write_body-sends_once :
        (1 ≤ (write_body request).1)
        × ((write_body request).1 ≤ 4)
        × (count (may_reach leaves) (attempts 0 (write_body request).1) ≤ 1)
    unfolding write_body
    write_body-sends_once =
        let (k, made, le, once) = sends-SentOnce connect_retries 0 in
        let here : suc k ≡ (write_body request).1 = omega arith in
        (
          omega arith,
          omega arith,
          subst (λ m. count (may_reach leaves) (attempts 0 m) ≤ 1) here once,
        )

  -- A failure that a read may repeat: an exception of the connection, or a 5xx.
  abbrev pub is_transient : Attempt Json → Bool
  is_transient (raised f) = retryable f
  is_transient (responded r) = not (ltb r.status_code 500)

  abbrev pub AllTransient : ℕ → ℕ → Type 0
  AllTransient n k = All (λ a. is_transient a ≡ true) (attempts n k)

  -- An attempt that may be repeated is.
  repeated :
      (a : Attempt Json) (next : ℕ) (rest : Reply Json × ℕ)
      → is_transient a ≡ true
      → after_attempt retryable true a next rest ≡ rest
  repeated (raised f) next rest h = rw h refl
  repeated (responded r) next rest h = elim (Bool-cases (ltb r.status_code 500)) [
    | inl e ↦ cc (h, e)
    | inr e ↦ rw e refl
  ]

  recovers :
      (k n left m : ℕ) (r : Response Json)
      → AllTransient n k
      → k ≤ left
      → m ≡ n + k
      → request m ≡ responded r
      → ltb r.status_code 500 ≡ true
      → attempts_from request retryable true n left ≡ (response r, suc m)
  unfolding attempts_from
  recovers zero n zero m r fails le at e fine =
      let here : m ≡ n = omega arith in rw (sym here) (rw e refl)
  recovers zero n (suc left) m r fails le at e fine =
      let here : m ≡ n = omega arith in rw (sym here) (rw e (rw fine refl))
  recovers (suc k) n zero m r fails le at e fine = absurd (omega (arith, le))
  recovers (suc k) n (suc left) m r (fails, more) le at e fine =
      repeated (request n) (suc n) (attempts_from request retryable true (suc n) left) fails
      ∙ recovers k (suc n) left m r more (omega arith) (omega arith) e fine

  -- Where three attempts of a read at most fail in passing, and the next is answered with no 5xx,
  -- the read stops there, and means what that answer means.
  pub read_body-recovers :
      (k : ℕ) (r : Response Json) (absent_on_404 : Bool)
      → AllTransient 0 k
      → k ≤ 3
      → request k ≡ responded r
      → r.status_code < 500
      → read_body request absent_on_404 ≡ (body_of r absent_on_404 false, suc k)
  unfolding read_body
  read_body-recovers k r absent_on_404 fails le e fine =
      rw (recovers k 0 3 k r fails le (omega arith) e (ground arith)) refl
