-- ===== src/Billing/Fallback.antt =====
-- `apply_payload_fallback` of app/services/billing_service.py: what an event implies when Flash
-- cannot be asked. Only endings are applied.
pub mod Endings
pub mod Revocation
use brainstorm_server.Common.{
  ℕ, String, Bool, true, false, not, Option, none, some, present, is_none, str_eq, ◌&&◌,
  if◌then◌else◌,
}
use brainstorm_server.Flash.{Datetime}
use brainstorm_server.Billing.Tables.{UserSubscription}
use brainstorm_server.Billing.Session.{Exec, pure, commit, ◌>>=◌, ◌>>◌}
use brainstorm_server.Billing.Environment.{Environment}
use brainstorm_server.Billing.Entitlement.{revoke, Resolution, resolve_entitlement, is_admin_held}
use brainstorm_server.Billing.Repos.Nsec.{
  lock_user_for_update_on_db, get_scheduling_source_on_db, set_scheduling_for_pubkey_on_db,
}
use brainstorm_server.Billing.Repos.Subscriptions.{
  get_user_subscription_on_db, clear_granted_scheduling_on_db, update_flash_status_on_db,
}
use brainstorm_server.Billing.Repos.Plans.{get_or}

-- `_FALLBACK_STATUS.get(event)`.
unfoldable pub fallback_status : String → Option String
fallback_status event =
    if str_eq event "subscription.expired"
    then some "expired"
    else if str_eq event "subscription.canceled"
    then some "canceled"
    else if str_eq event "subscription.past_due"
    then some "past_due"
    else none

abbrev pub take_back : String → Bool → Option ℕ → Option String → Exec (Unit {0})
take_back pubkey false scheduling_id source = pure tt
take_back pubkey true scheduling_id none = pure tt
take_back pubkey true scheduling_id (some source) = do
  set_scheduling_for_pubkey_on_db pubkey scheduling_id source
  clear_granted_scheduling_on_db pubkey

-- The revocation that `expired` implies; shared with the lapse sweep.
unfoldable pub revoke_grant : String → ℕ → Option ℕ → Exec Resolution
revoke_grant pubkey plan_scheduling_id existing_granted = do
  source ← get_scheduling_source_on_db pubkey
  let resolution : Resolution =
      resolve_entitlement revoke false (is_admin_held source) plan_scheduling_id existing_granted
  take_back pubkey resolution.write_policy resolution.scheduling_id resolution.source
  pure resolution

abbrev pub revoke_if_expired : String → UserSubscription → String → Exec (Unit {0})
revoke_if_expired pubkey existing status =
    if str_eq status "expired"
    then (do
      revoke_grant pubkey (get_or existing.granted_scheduling_id 0) existing.granted_scheduling_id
      pure tt)
    else pure tt

-- With no effective date of its own, a cancellation ends with the paid period.
abbrev pub implied_date : String → UserSubscription → Option Datetime
implied_date status existing =
    if str_eq status "canceled" && is_none existing.cancel_effective_date
    then existing.current_period_end
    else none

abbrev pub apply_status : String → String → Option UserSubscription → Exec Bool
apply_status pubkey status none = pure false
apply_status pubkey status (some existing) = do
  revoke_if_expired pubkey existing status
  update_flash_status_on_db pubkey status (implied_date status existing)
  commit
  pure true

module _ (env : Environment) where
  unfoldable pub fall_back : Option String → Option String → Exec Bool
  fall_back none external_ref = pure false
  fall_back (some status) none = pure false
  fall_back (some status) (some pubkey) = do
    locked ← lock_user_for_update_on_db env.held pubkey true
    if not locked
        then pure false
        else (do existing ← get_user_subscription_on_db pubkey; apply_status pubkey status existing)

  -- True if anything moved.
  unfoldable pub apply_payload_fallback : String → Option String → Exec Bool
  apply_payload_fallback event external_ref =
      fall_back (fallback_status event) (present external_ref)
