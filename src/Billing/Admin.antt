-- ===== src/Billing/Admin.antt =====
-- The operators' actions of app/services/billing_service.py: the block, the plan mappings, the
-- writes to Flash, and the signups that named nobody. The text of an error is left out.
pub mod Action
pub mod Block
pub mod Creation
pub mod Plans
pub mod Tests
use brainstorm_server.Common.{
  ℕ, String, Bool, true, false, not, Option, none, some, present, is_some, str_eq, ◌&&◌, ◌||◌, ◌==◌,
  if◌then◌else◌,
}
use brainstorm_server.Flash.{Datetime, FlashSubscription, cancelled_status}
use brainstorm_server.Billing.Tables.{BillingPlan, UserSubscription, default_source, billing_source}
use brainstorm_server.Billing.Session.{
  Exec, Fault, Result, ok, raise, flash_unavailable, flash_credential_error, http_exception, pure,
  throw, commit, rollback, ◌>>=◌, ◌>>◌,
}
use brainstorm_server.Billing.Environment.{Environment, ask}
use brainstorm_server.Billing.Entitlement.{
  EntitlementReason, unknown_user, unknown_subscription, unknown_plan, attributed, dismissed,
  reference_mismatch, busy, no_reference, EntitlementOutcome, is_settled, reason_value,
}
use brainstorm_server.Billing.Repos.Nsec.{
  brainstorm_nsec_exists_by_pubkey_on_db, lock_user_for_update_on_db, set_billing_blocked_on_db,
  get_scheduling_source_on_db, set_scheduling_for_pubkey_on_db, scheduling_exists_on_db,
}
use brainstorm_server.Billing.Repos.Subscriptions.{
  get_user_subscription_on_db, get_user_subscription_by_flash_id_on_db,
  clear_granted_scheduling_on_db, count_subscriptions_for_plan_on_db,
}
use brainstorm_server.Billing.Repos.Plans.{
  PlanChange, get_or, get_billing_plan_on_db, get_billing_plan_by_id_on_db,
  insert_billing_plan_on_db, update_billing_plan_on_db,
}
use brainstorm_server.Billing.Repos.Events.{
  reset_events_awaiting_plan_on_db, settle_unresolved_events_on_db,
}
use brainstorm_server.Billing.Apply.{apply_entitlement}

pub record BlockOutcome : Type 0 where
  pub found : Bool
  pub is_blocked : Bool
  pub is_revoked : Bool

-- Blocking also takes back a policy that billing granted.
unfoldable pub revoke_if_billed : String → Bool → Exec Bool
revoke_if_billed pubkey false = pure false
revoke_if_billed pubkey true = do
  source ← get_scheduling_source_on_db pubkey
  if str_eq source billing_source
      then (do
        set_scheduling_for_pubkey_on_db pubkey none default_source
        clear_granted_scheduling_on_db pubkey
        pure true)
      else pure false

unfoldable pub set_billing_block : Environment → String → Bool → Exec BlockOutcome
set_billing_block env pubkey is_blocked = do
  exists ← brainstorm_nsec_exists_by_pubkey_on_db pubkey
  if not exists
      then pure (record { found = false; is_blocked = false; is_revoked = false })
      else (do
        lock_user_for_update_on_db env.held pubkey false
        set_billing_blocked_on_db pubkey is_blocked
        is_revoked ← revoke_if_billed pubkey is_blocked
        commit
        pure (record { found = true; is_blocked = is_blocked; is_revoked = is_revoked }))

unfoldable pub require_scheduling : ℕ → Exec (Unit {0})
require_scheduling scheduling_id = do
  exists ← scheduling_exists_on_db scheduling_id
  if exists then pure tt else throw (http_exception 404)

unfoldable pub require_unused_flash_ids : String → String → Exec (Unit {0})
require_unused_flash_ids service_id plan_id = do
  plan ← get_billing_plan_on_db service_id plan_id
  if is_some plan then throw (http_exception 409) else pure tt

unfoldable pub create_billing_plan : String → String → ℕ → Bool → Exec BillingPlan
create_billing_plan service_id plan_id scheduling_id is_active = do
  require_scheduling scheduling_id
  require_unused_flash_ids service_id plan_id
  plan ← insert_billing_plan_on_db service_id plan_id scheduling_id is_active
  reset_events_awaiting_plan_on_db service_id plan_id (reason_value unknown_plan)
  commit
  pure plan

abbrev pub require_some_scheduling : Option ℕ → Exec (Unit {0})
require_some_scheduling none = pure tt
require_some_scheduling (some scheduling_id) = require_scheduling scheduling_id

-- The Flash ids may change only while nobody is on the plan.
unfoldable pub require_free_to_rename : ℕ → String → String → Bool → Exec (Unit {0})
require_free_to_rename plan_id service_id plan_ref false = pure tt
require_free_to_rename plan_id service_id plan_ref true = do
  subscribers ← count_subscriptions_for_plan_on_db plan_id
  if subscribers == 0
      then require_unused_flash_ids service_id plan_ref
      else throw (http_exception 409)

abbrev pub free_waiting : String → String → Bool → Exec ℕ
free_waiting service_id plan_ref false = pure 0
free_waiting service_id plan_ref true =
    reset_events_awaiting_plan_on_db service_id plan_ref (reason_value unknown_plan)

abbrev pub found_or_404 {ℓ} : {A : Type ℓ} → Option A → Exec A
found_or_404 none = throw (http_exception 404)
found_or_404 (some a) = pure a

abbrev pub new_service_id : PlanChange → BillingPlan → String
new_service_id values current = get_or values.flash_service_id current.flash_service_id

abbrev pub new_plan_id : PlanChange → BillingPlan → String
new_plan_id values current = get_or values.flash_plan_id current.flash_plan_id

-- The change gives the mapping other ids in Flash.
abbrev pub is_reidentified : PlanChange → BillingPlan → Bool
is_reidentified values current = not (
    str_eq (new_service_id values current) current.flash_service_id
    && str_eq (new_plan_id values current) current.flash_plan_id)

-- The function from where the mapping is found.
unfoldable pub change_plan : ℕ → PlanChange → BillingPlan → Exec BillingPlan
change_plan plan_id values current = do
  let service_id : String = new_service_id values current
  let plan_ref : String = new_plan_id values current
  require_free_to_rename plan_id service_id plan_ref (is_reidentified values current)
  plan ← update_billing_plan_on_db plan_id values
  free_waiting service_id plan_ref (is_reidentified values current)
  commit
  found_or_404 plan

unfoldable pub update_billing_plan : ℕ → PlanChange → Exec BillingPlan
update_billing_plan plan_id values = do
  require_some_scheduling values.scheduling_id
  found ← get_billing_plan_by_id_on_db plan_id
  current ← found_or_404 found
  change_plan plan_id values current

pub record SubscriptionActionOutcome : Type 0 where
  pub pubkey : String
  pub subscription_id : String
  pub flash_status : String
  pub cancel_effective_date : Option Datetime
  pub cancellation_scheduled : Bool
  pub applied : Bool
  pub reason : String

abbrev pub reread_failed : String
reread_failed = "reread_failed"

-- The re-read after the write: an outage or a refused credential is reported, not raised.
abbrev pub reread : Result EntitlementOutcome → Result (String × Bool)
reread (ok outcome) = ok (reason_value outcome.reason, outcome.applied)
reread (raise (flash_unavailable why)) = ok (reread_failed, false)
reread (raise flash_credential_error) = ok (reread_failed, false)
reread (raise e) = raise e

abbrev pub id_or : String → String → String
id_or id other = if str_eq id "" then other else id

module _ (env : Environment) (now : Datetime) where
  abbrev catch_reread : Exec EntitlementOutcome → Exec (String × Bool)
  catch_reread m s = (reread (m s).0, (m s).1)

  unfoldable pub act_on_subscription :
      String → (String → Exec (Option FlashSubscription)) → Exec SubscriptionActionOutcome
  act_on_subscription pubkey write = do
    stored ← get_user_subscription_on_db pubkey
    held ← found_or_404 stored
    if not (is_some (present (some held.flash_subscription_id)))
        then throw (http_exception 404)
        else (do
          answer ← write held.flash_subscription_id
          changed ← found_or_404 answer
          (reason, applied) ← catch_reread (
              apply_entitlement env (some pubkey) (some held.flash_subscription_id) false false now)
          pure (record {
            pubkey = pubkey;
            subscription_id = id_or changed.id held.flash_subscription_id;
            flash_status = changed.status;
            cancel_effective_date = changed.cancel_effective_date;
            cancellation_scheduled =
                is_some changed.cancel_effective_date || str_eq changed.status cancelled_status;
            applied = applied;
            reason = reason;
          }))

  abbrev pub cancel_subscriber_subscription :
      String → Option String → Exec SubscriptionActionOutcome
  cancel_subscriber_subscription pubkey reason =
      act_on_subscription pubkey (λ id. ask (λ n. env.cancel n id reason))

  abbrev pub set_subscriber_subscription_status : String → String → Exec SubscriptionActionOutcome
  set_subscriber_subscription_status pubkey status =
      act_on_subscription pubkey (λ id. ask (λ n. env.set_status n id status))
