-- ===== src/Billing/Apply.antt =====
-- `apply_entitlement` and `_grant_and_record` of app/services/billing_service.py: reconcile one
-- subscriber against Flash in one transaction. Each stage below is a stretch of the function up to
-- an early return. `now` is the clock at the time of the write; logging is left out.
pub mod Stages
pub mod Writes
pub mod Safety
pub mod Inbox
mod Tests
use brainstorm_server.Common.{
  ℕ, String, Bool, true, false, not, ◌&&◌, Option, none, some, present, is_some, is_none, str_eq,
  or_else, if◌then◌else◌,
}
use brainstorm_server.Flash.{Datetime, FlashSubscription}
use brainstorm_server.Billing.Tables.{UserSubscription, BillingPlan}
use brainstorm_server.Billing.Session.{Exec, pure, commit, ◌>>=◌, ◌>>◌}
use brainstorm_server.Billing.Environment.{Environment, fetch_subscription}
use brainstorm_server.Billing.Entitlement.{
  EntitlementReason, no_reference, unknown_user, unknown_plan, unknown_subscription,
  reference_mismatch, busy, EntitlementOutcome, Resolution, resolve_entitlement, decide_entitlement,
  is_admin_held,
}
use brainstorm_server.Billing.Repos.Nsec.{
  brainstorm_nsec_exists_by_pubkey_on_db, lock_user_for_update_on_db, is_billing_blocked_on_db,
  get_scheduling_source_on_db, set_scheduling_for_pubkey_on_db,
}
use brainstorm_server.Billing.Repos.Subscriptions.{
  get_user_subscription_on_db, upsert_user_subscription_on_db,
}
use brainstorm_server.Billing.Repos.Plans.{get_billing_plan_on_db}

abbrev pub refuse : EntitlementReason → EntitlementOutcome
refuse reason = record { applied = false; reason = reason }

abbrev pub granted_of : Option UserSubscription → Option ℕ
granted_of none = none
granted_of (some r) = r.granted_scheduling_id

-- What `_grant_and_record` decides, from what it reads of the user.
unfoldable pub resolution_for :
    FlashSubscription
    → BillingPlan
    → Datetime
    → Bool
    → String
    → Option UserSubscription
    → Resolution
resolution_for subscription plan now is_blocked source existing =
    resolve_entitlement
      (decide_entitlement subscription.status subscription.cancel_effective_date
        subscription.current_period_end now subscription.policy)
      is_blocked (is_admin_held source) plan.scheduling_id (granted_of existing)

abbrev pub write_assignment : String → Bool → Option ℕ → Option String → Exec (Unit {0})
write_assignment pubkey false scheduling_id source = pure tt
write_assignment pubkey true scheduling_id none = pure tt
write_assignment pubkey true scheduling_id (some source) =
    set_scheduling_for_pubkey_on_db pubkey scheduling_id source

unfoldable pub grant_and_record :
    String
    → FlashSubscription
    → BillingPlan
    → Datetime
    → Option UserSubscription
    → Exec EntitlementOutcome
grant_and_record pubkey subscription plan now existing = do
  is_blocked ← is_billing_blocked_on_db pubkey
  source ← get_scheduling_source_on_db pubkey
  let resolution : Resolution = resolution_for subscription plan now is_blocked source existing
  write_assignment pubkey resolution.write_policy resolution.scheduling_id resolution.source
  upsert_user_subscription_on_db pubkey subscription plan.id resolution.granted_scheduling_id now
  commit
  pure (record { applied = resolution.write_policy; reason = resolution.reason })

abbrev pub names_another_subscription : Option UserSubscription → FlashSubscription → Bool
names_another_subscription none subscription = false
names_another_subscription (some existing) subscription =
    is_some (present subscription.ref)
    && (is_some (present (some existing.flash_subscription_id))
        && not (str_eq existing.flash_subscription_id subscription.id))

module _ (env : Environment) (pubkey : String) (now : Datetime) where
  abbrev record_plan :
      FlashSubscription → Option UserSubscription → Option BillingPlan → Exec EntitlementOutcome
  record_plan subscription existing none = pure (refuse unknown_plan)
  record_plan subscription existing (some plan) =
      grant_and_record pubkey subscription plan now existing

  unfoldable pub map_and_record :
      FlashSubscription → Option UserSubscription → Exec EntitlementOutcome
  map_and_record subscription existing = do
    plan ← get_billing_plan_on_db subscription.service_id subscription.plan_id
    record_plan subscription existing plan

  abbrev pub current_or : Option FlashSubscription → FlashSubscription → FlashSubscription
  current_or none subscription = subscription
  current_or (some current) subscription = current

  -- A subscription other than the one on file: ask by reference, which picks the row that still
  -- entitles.
  unfoldable pub choose_current : FlashSubscription → Exec EntitlementOutcome
  choose_current subscription = do
    existing ← get_user_subscription_on_db pubkey
    if names_another_subscription existing subscription
        then (do
          current ← fetch_subscription env none (some pubkey)
          map_and_record (current_or current subscription) existing)
        else map_and_record subscription existing

  abbrev check_ref : Option String → Bool → FlashSubscription → Exec EntitlementOutcome
  check_ref none allow_unreferenced subscription =
      if allow_unreferenced then choose_current subscription else pure (refuse no_reference)
  check_ref (some ref) allow_unreferenced subscription =
      if str_eq ref pubkey then choose_current subscription else pure (refuse reference_mismatch)

  unfoldable pub check_reference : Option FlashSubscription → Bool → Exec EntitlementOutcome
  check_reference none allow_unreferenced = pure (refuse unknown_subscription)
  check_reference (some subscription) allow_unreferenced =
      check_ref (present subscription.ref) allow_unreferenced subscription

  abbrev ask_stored : Option UserSubscription → Bool → Exec EntitlementOutcome
  ask_stored none allow_unreferenced = check_reference none allow_unreferenced
  ask_stored (some stored) allow_unreferenced = do
    subscription ← fetch_subscription env (some stored.flash_subscription_id) none
    check_reference subscription true

  -- Asked by reference and Flash has none: the id on file is the only handle left.
  unfoldable pub look_up_stored :
      Option String → Option FlashSubscription → Bool → Exec EntitlementOutcome
  look_up_stored (some id) found allow_unreferenced = check_reference found allow_unreferenced
  look_up_stored none (some found) allow_unreferenced =
      check_reference (some found) allow_unreferenced
  look_up_stored none none allow_unreferenced = do
    stored ← get_user_subscription_on_db pubkey
    ask_stored stored allow_unreferenced

  abbrev ref_unless : Option String → Option String
  ref_unless none = some pubkey
  ref_unless (some id) = none

  -- Under the row lock, which is taken before Flash is read.
  unfoldable pub reconcile_locked : Option String → Bool → Exec EntitlementOutcome
  reconcile_locked subscription_id allow_unreferenced = do
    found ← fetch_subscription env subscription_id (ref_unless (present subscription_id))
    look_up_stored (present subscription_id) found allow_unreferenced

  unfoldable pub reconcile_user : Option String → Bool → Bool → Exec EntitlementOutcome
  reconcile_user subscription_id yield_if_busy allow_unreferenced = do
    exists ← brainstorm_nsec_exists_by_pubkey_on_db pubkey
    if not exists then pure (refuse unknown_user) else (do
      locked ← lock_user_for_update_on_db env.held pubkey yield_if_busy
      if not locked
          then pure (refuse busy)
          else reconcile_locked subscription_id allow_unreferenced)

module _ (env : Environment) where
  abbrev apply_to : Option String → Option String → Bool → Bool → Datetime → Exec EntitlementOutcome
  apply_to none subscription_id yield_if_busy allow_unreferenced now = pure (refuse no_reference)
  apply_to (some pubkey) subscription_id yield_if_busy allow_unreferenced now =
      reconcile_user env pubkey now subscription_id yield_if_busy allow_unreferenced

  unfoldable pub apply_entitlement :
      Option String → Option String → Bool → Bool → Datetime → Exec EntitlementOutcome
  apply_entitlement external_ref = apply_to (present external_ref)
