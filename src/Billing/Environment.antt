-- ===== src/Billing/Environment.antt =====
-- What the billing code finds around it: Flash's answers, and the rows that other transactions
-- have locked. The answers are those of app/core/flash.py, one for each request made so far, so
-- that Flash may change its mind between two requests.
use brainstorm_server.Common.{ℕ, suc, String, Bool, Option, none, some, present}
use brainstorm_server.Flash.{
  FlashSubscription, Answer, answered, unavailable, credentials_refused, refused,
}
use brainstorm_server.Billing.Session.{
  Fault, throw, Result, ok, raise, flash_unavailable, flash_credential_error, flash_refused, Exec,
}

pub record Environment : Type 0 where
  pub fetch : ℕ → Option String → Option String → Answer
  pub cancel : ℕ → String → Option String → Answer
  pub set_status : ℕ → String → String → Answer
  pub held : String → Bool

abbrev pub outcome_of : Answer → Result (Option FlashSubscription)
outcome_of (answered o) = ok o
outcome_of (unavailable why) = raise (flash_unavailable why)
outcome_of credentials_refused = raise flash_credential_error
outcome_of (refused status) = raise (flash_refused status)

abbrev pub ask : (ℕ → Answer) → Exec (Option FlashSubscription)
ask request s = (outcome_of (request s.asked), record s { asked = suc s.asked })

abbrev pub no_handle : Fault
no_handle = flash_unavailable "A subscription lookup needs a subscriptionId or a ref"

module _ (env : Environment) where
  abbrev pub fetch_with :
      Option String
      → Option String
      → Option String
      → Option String
      → Exec (Option FlashSubscription)
  fetch_with none none id ref = throw no_handle
  fetch_with (some i) r id ref = ask (λ n. env.fetch n id ref)
  fetch_with none (some r) id ref = ask (λ n. env.fetch n id ref)

  -- `fetch_subscription`, which refuses a lookup with no handle.
  unfoldable pub fetch_subscription :
      Option String → Option String → Exec (Option FlashSubscription)
  fetch_subscription id ref = fetch_with (present id) (present ref) id ref
