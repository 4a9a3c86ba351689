-- ===== src/Billing/Views.antt =====
-- The subscriber's view of app/services/subscription_view_service.py. It only reads.
pub mod Subscriber
pub mod Page
mod Tests
use brainstorm_server.Common.{
  ℕ, String, Bool, true, false, Option, none, some, List, [], ◌∷◌, str_eq, if◌then◌else◌,
}
use brainstorm_server.Common.Int.{ℤ}
use brainstorm_server.Flash.{Datetime}
use brainstorm_server.Billing.Tables.{Scheduling, BillingPlan, UserSubscription, BrainstormNsec}
use brainstorm_server.Billing.Session.{Exec, pure, reads, ◌>>=◌}
use brainstorm_server.Billing.Repos.Nsec.{nsec_of, get_scheduling_on_db}
use brainstorm_server.Billing.Repos.Plans.{get_billing_plan_by_id_on_db}
use brainstorm_server.Billing.Repos.Subscriptions.{get_user_subscription_on_db}
use brainstorm_server.Billing.Repos.Candidates.Abandon.{AbandonRule, matches}
use brainstorm_server.Billing.Entitlement.{
  EntitlementOutcome, EntitlementReason, reference_mismatch, no_reference, unknown_subscription,
  reason_value,
}

pub record SubscriptionPolicyView : Type 0 where
  pub id : ℕ
  pub name : String
  pub schedule_interval_seconds : ℕ
  pub is_default : Bool

pub record SubscriptionPlanView : Type 0 where
  pub plan_id : String
  pub amount_minor : Option ℤ
  pub currency : Option String
  pub billing_interval : Option String
  pub is_active : Bool

pub record SubscriptionView : Type 0 where
  pub policy : Option SubscriptionPolicyView
  pub plan : Option SubscriptionPlanView
  pub status : String
  pub current_period_start : Option Datetime
  pub current_period_end : Option Datetime
  pub next_billing_date : Option Datetime
  pub cancel_effective_date : Option Datetime
  pub manage_url : Option String

-- `_abandon_rule`
abbrev pub abandon_rule : ℕ → AbandonRule
abandon_rule after = record { after = after; error = reason_value unknown_subscription }

-- `_UI_STATUS`
abbrev pub ui_status : String → Option String
ui_status s =
    if str_eq s "active"
    then some "active"
    else if str_eq s "trial"
    then some "active"
    else if str_eq s "pending"
    then some "pending"
    else if str_eq s "past_due"
    then some "grace"
    else if str_eq s "paused"
    then some "canceled"
    else if str_eq s "canceled"
    then some "canceled"
    else if str_eq s "expired"
    then some "canceled"
    else none

abbrev pub by_policy : Bool → String
by_policy is_default = if is_default then "none" else "active"

abbrev pub known_or : Option String → Bool → String
known_or none is_default = by_policy is_default
known_or (some s) is_default = s

unfoldable pub translate : Option String → Bool → String
translate none is_default = by_policy is_default
translate (some s) is_default = known_or (ui_status s) is_default

abbrev pub scheduling_id_of : Option BrainstormNsec → Option ℕ
scheduling_id_of none = none
scheduling_id_of (some r) = r.scheduling_id

abbrev pub get_assigned_scheduling_id_on_db : String → Exec (Option ℕ)
get_assigned_scheduling_id_on_db pubkey = reads λ db. scheduling_id_of (nsec_of db pubkey)

abbrev pub first_default : List Scheduling → Option Scheduling
first_default [] = none
first_default (p ∷ ps) = if p.is_default then some p else first_default ps

-- At most one policy is the default.
abbrev pub get_default_scheduling_on_db : Exec (Option Scheduling)
get_default_scheduling_on_db = reads λ db. first_default db.schedulings

abbrev pub or_default : Option Scheduling → Exec (Option Scheduling)
or_default none = get_default_scheduling_on_db
or_default (some p) = pure (some p)

abbrev pub policy_with : Option ℕ → Exec (Option Scheduling)
policy_with none = get_default_scheduling_on_db
policy_with (some id) = do policy ← get_scheduling_on_db id; or_default policy

unfoldable pub resolve_policy : String → Exec (Option Scheduling)
resolve_policy pubkey = do
  scheduling_id ← get_assigned_scheduling_id_on_db pubkey
  policy_with scheduling_id

-- A checkout that Flash discarded is no subscription.
abbrev pub unless_abandoned :
    AbandonRule → Datetime → Option UserSubscription → Option UserSubscription
unless_abandoned rule now none = none
unless_abandoned rule now (some r) = if matches rule now r then none else some r

abbrev pub plan_of : Option UserSubscription → Exec (Option BillingPlan)
plan_of none = pure none
plan_of (some r) = get_billing_plan_by_id_on_db r.billing_plan_id

abbrev pub policy_view : Option Scheduling → Option SubscriptionPolicyView
policy_view none = none
policy_view (some p) = some (record {
  id = p.id;
  name = p.name;
  schedule_interval_seconds = p.schedule_interval_seconds;
  is_default = p.is_default;
})

abbrev pub subscriber_plan_view : UserSubscription → BillingPlan → SubscriptionPlanView
subscriber_plan_view row plan = record {
  plan_id = plan.flash_plan_id;
  amount_minor = row.pricing_amount_minor;
  currency = row.pricing_currency;
  billing_interval = row.pricing_billing_interval;
  is_active = plan.is_active;
}

abbrev pub plan_view : Option UserSubscription → Option BillingPlan → Option SubscriptionPlanView
plan_view (some row) (some plan) = some (subscriber_plan_view row plan)
plan_view _ _ = none

abbrev status_of : Option UserSubscription → Option String
status_of none = none
status_of (some r) = some r.flash_status

-- The default where there is no policy at all.
abbrev pub holds_default : Option Scheduling → Bool
holds_default none = true
holds_default (some p) = p.is_default

abbrev of_row {ℓ} :
    {A : Type ℓ} → (UserSubscription → Option A) → Option UserSubscription → Option A
of_row field none = none
of_row field (some r) = field r

abbrev pub view_of :
    Option Scheduling → Option UserSubscription → Option BillingPlan → SubscriptionView
view_of policy row plan = record {
  policy = policy_view policy;
  plan = plan_view row plan;
  status = translate (status_of row) (holds_default policy);
  current_period_start = of_row (λ r. r.current_period_start) row;
  current_period_end = of_row (λ r. r.current_period_end) row;
  next_billing_date = of_row (λ r. r.next_billing_date) row;
  cancel_effective_date = of_row (λ r. r.cancel_effective_date) row;
  manage_url = of_row (λ r. r.portal_url) row;
}

-- `after` is how long a checkout that Flash does not know is waited for.
unfoldable pub read_subscription_view : ℕ → Datetime → String → Exec SubscriptionView
read_subscription_view after now pubkey = do
  policy ← resolve_policy pubkey
  stored ← get_user_subscription_on_db pubkey
  plan ← plan_of (unless_abandoned (abandon_rule after) now stored)
  pure (view_of policy (unless_abandoned (abandon_rule after) now stored) plan)

-- What a refresh found out about the id that the checkout handed over.
pub data Verification : Type 0 where
  verified mismatch unknown not_given unavailable : Verification

abbrev verification_by_reason : EntitlementReason → Verification
verification_by_reason reference_mismatch = mismatch
verification_by_reason no_reference = mismatch
verification_by_reason unknown_subscription = unknown
verification_by_reason _ = verified

abbrev of_outcome : Option EntitlementOutcome → Verification
of_outcome none = unavailable
of_outcome (some o) = verification_by_reason o.reason

unfoldable pub verification_of : Option EntitlementOutcome → Bool → Verification
verification_of outcome id_given = if id_given then of_outcome outcome else not_given

abbrev pub read_refreshed_subscription_view :
    ℕ
    → Datetime
    → String
    → Option EntitlementOutcome
    → Bool
    → Exec (Verification × SubscriptionView)
read_refreshed_subscription_view after now pubkey outcome id_given = do
  view ← read_subscription_view after now pubkey
  pure (verification_of outcome id_given, view)
