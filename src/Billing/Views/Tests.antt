-- ===== src/Billing/Views/Tests.antt =====
-- The views of billing at concrete inputs.
use brainstorm_server.Common.{◌≡◌, refl, String, true, none, some, inl, List, [], ◌∷◌, is_in}
use brainstorm_server.Common.Int.{pos}
use brainstorm_server.Flash.Catalog.{FlashPlan}
use brainstorm_server.Flash.Catalog.Reads.{PlansRead, plans_found, credentials_refused}
use brainstorm_server.Billing.Tables.{UserSubscription}
use brainstorm_server.Billing.Session.{Session, ok, raise, flash_credential_error}
use brainstorm_server.Table.Where.{select}
use brainstorm_server.Billing.Fixtures.{pro, session, database}
use brainstorm_server.Billing.Views.{SubscriptionView, read_subscription_view, policy_view}
use brainstorm_server.Billing.Views.Subscriber.{
  ui_statuses, held_policy, ShowsPlan, read_subscription_view-shows,
}
use brainstorm_server.Billing.Views.Page.{BillingPlanView, list_billing_plans}
use brainstorm_server.Billing.Views.Page.Answer.{
  PageGiven, list_billing_plans_lem, list_billing_plans-refused,
}

-- A checkout of alice that Flash has not known for an hour.
abbrev discarded : UserSubscription
discarded = record {
  pubkey = "alice";
  flash_subscription_id = "sub_1";
  flash_subscriber_id = none;
  billing_plan_id = 1;
  granted_scheduling_id = none;
  flash_status = "pending";
  current_period_start = none;
  current_period_end = none;
  next_billing_date = none;
  trial_end_date = none;
  cancel_effective_date = none;
  portal_url = none;
  pricing_amount_minor = none;
  pricing_currency = none;
  pricing_billing_interval = none;
  last_event_at = none;
  last_synced_at = none;
  last_sync_error = some "unknown_subscription";
  sync_error_since = some 10;
}

abbrev waiting : Session
waiting = record session { db = record database { subscriptions = discarded ∷ [] } }

read_subscription_view-shows_example :
    (v : SubscriptionView) × (read_subscription_view 100 50 "alice" waiting ≡ (ok v, waiting))
    × (v.policy ≡ policy_view (held_policy waiting.db "alice"))
    × (is_in v.status ui_statuses ≡ true)
    × ShowsPlan 100 50 "alice" waiting.db v.plan
read_subscription_view-shows_example = read_subscription_view-shows 100 50 "alice" waiting

abbrev monthly : FlashPlan
monthly = record {
  id = "pro";
  service_id = "svc";
  name = "Pro";
  description = none;
  amount_minor = some (pos 500);
  currency = "USD";
  billing_interval = some "monthly";
  sort_order = pos 1;
  features = none;
  not_included = none;
  status = "active";
  signup_url = some "https://flash.example/pro";
}

abbrev offering : String → PlansRead
offering service_id = plans_found (monthly ∷ [])

abbrev as_given : String → String
as_given url = url

list_billing_plans_lem_example :
    (rows : List BillingPlanView) × PageGiven offering as_given session rows
unfolding select
list_billing_plans_lem_example = list_billing_plans_lem offering as_given session (refl, tt)

abbrev refusing : String → PlansRead
refusing service_id = credentials_refused

list_billing_plans-refused_example :
    list_billing_plans as_given refusing true session ≡ (raise flash_credential_error, session)
unfolding select
list_billing_plans-refused_example =
    list_billing_plans-refused refusing as_given session pro (inl refl) refl
