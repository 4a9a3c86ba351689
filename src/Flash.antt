-- ===== src/Flash.antt =====
-- app/core/flash.py: what Flash reports of one subscription, and the outcomes of asking.
-- A naive UTC datetime is its number of microseconds since `datetime.min`.
pub mod Client
pub mod Parsing
pub mod Catalog
use brainstorm_server.Common.{ℕ, String, Bool, Option, none, List, [], ◌∷◌}
use brainstorm_server.Common.Int.{ℤ}

abbrev pub Datetime : Type 0
Datetime = ℕ

pub record FlashPricing : Type 0 where
  pub amount_minor : Option ℤ
  pub currency : Option String
  pub billing_interval : Option String

abbrev pub cancellation_end_of_period : String
cancellation_end_of_period = "end_of_period"

abbrev pub cancellation_immediate : String
cancellation_immediate = "immediate"

pub record FlashLifecyclePolicy : Type 0 where
  pub cancellation_mode : Option String
  pub dunning_max_attempts : Option ℤ
  pub dunning_attempts : Option ℤ
  pub dunning_cancels_after_final_failure : Option Bool

abbrev pub unknown_lifecycle_policy : FlashLifecyclePolicy
unknown_lifecycle_policy = record {
  cancellation_mode = none;
  dunning_max_attempts = none;
  dunning_attempts = none;
  dunning_cancels_after_final_failure = none;
}

abbrev pub entitling_statuses : List String
entitling_statuses = "active" ∷ "trial" ∷ []

abbrev pub ended_statuses : List String
ended_statuses = "expired" ∷ "paused" ∷ []

abbrev pub cancelled_status : String
cancelled_status = "canceled"

abbrev pub past_due_status : String
past_due_status = "past_due"

abbrev pub pending_status : String
pending_status = "pending"

pub record FlashSubscription : Type 0 where
  pub id : String
  pub status : String
  pub ref : Option String
  pub subscriber_id : Option String
  pub service_id : String
  pub plan_id : String
  pub current_period_start : Option Datetime
  pub current_period_end : Option Datetime
  pub next_billing_date : Option Datetime
  pub trial_end_date : Option Datetime
  pub cancel_effective_date : Option Datetime
  pub portal_url : Option String
  pub pricing : Option FlashPricing
  pub policy : FlashLifecyclePolicy

-- The outcomes of one lookup or write: an answer, `None` for absence, or one of the exceptions
-- `FlashUnavailable`, `FlashCredentialError` and `FlashRefused`.
pub data Answer : Type 0 where
  answered : Option FlashSubscription → Answer
  unavailable : String → Answer
  credentials_refused : Answer
  refused : ℕ → Answer
