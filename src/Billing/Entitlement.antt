-- ===== src/Billing/Entitlement.antt =====
-- The pure half of app/services/billing_service.py: what a Flash status says to do with the user's
-- policy (`decide_entitlement`), and what to write for it (`resolve_entitlement`).
pub mod Decide
pub mod Resolve
use brainstorm_server.Common.{
  ℕ, String, Bool, true, false, Option, none, some, List, [], ◌∷◌, is_in, str_eq, ltb, or_else,
  opt_str_eq, if◌then◌else◌,
}
use brainstorm_server.Common.Int.{ℤ, leb_ℤ}
use brainstorm_server.Flash.{
  Datetime, FlashLifecyclePolicy, entitling_statuses, ended_statuses, past_due_status,
  cancelled_status, cancellation_immediate,
}
use brainstorm_server.Billing.Tables.{default_source, billing_source, admin_source}

pub data EntitlementDecision : Type 0 where
  grant hold revoke : EntitlementDecision

pub data EntitlementReason : Type 0 where
  granted revoked held blocked admin_override no_reference unknown_user unknown_plan
        unknown_subscription reference_mismatch busy attributed dismissed :
      EntitlementReason

-- `EntitlementReason.value`.
abbrev pub reason_value : EntitlementReason → String
reason_value granted = "granted"
reason_value revoked = "revoked"
reason_value held = "held"
reason_value blocked = "blocked"
reason_value admin_override = "admin_override"
reason_value no_reference = "no_reference"
reason_value unknown_user = "unknown_user"
reason_value unknown_plan = "unknown_plan"
reason_value unknown_subscription = "unknown_subscription"
reason_value reference_mismatch = "reference_mismatch"
reason_value busy = "busy"
reason_value attributed = "attributed"
reason_value dismissed = "dismissed"

-- Membership in `SETTLED_REASONS`.
abbrev pub is_settled : EntitlementReason → Bool
is_settled granted = true
is_settled revoked = true
is_settled held = true
is_settled blocked = true
is_settled admin_override = true
is_settled attributed = true
is_settled dismissed = true
is_settled _ = false

pub record EntitlementOutcome : Type 0 where
  pub applied : Bool
  pub reason : EntitlementReason

pub record Resolution : Type 0 where
  pub write_policy : Bool
  pub scheduling_id : Option ℕ
  pub source : Option String
  pub granted_scheduling_id : Option ℕ
  pub reason : EntitlementReason

abbrev untouched : Option ℕ → EntitlementReason → Resolution
untouched existing_granted reason = record {
  write_policy = false;
  scheduling_id = none;
  source = none;
  granted_scheduling_id = existing_granted;
  reason = reason;
}

unfoldable pub resolve_entitlement : EntitlementDecision → Bool → Bool → ℕ → Option ℕ → Resolution
resolve_entitlement grant is_blocked admin_held plan_scheduling_id existing_granted =
    if is_blocked then untouched existing_granted blocked else record {
      write_policy = true;
      scheduling_id = some plan_scheduling_id;
      source = some (if admin_held then admin_source else billing_source);
      granted_scheduling_id = some plan_scheduling_id;
      reason = granted;
    }
resolve_entitlement revoke is_blocked admin_held plan_scheduling_id existing_granted =
    if admin_held then untouched existing_granted admin_override else record {
      write_policy = true;
      scheduling_id = none;
      source = some default_source;
      granted_scheduling_id = none;
      reason = revoked;
    }
resolve_entitlement hold is_blocked admin_held plan_scheduling_id existing_granted =
    untouched existing_granted held

abbrev pub is_admin_held : String → Bool
is_admin_held source = str_eq source admin_source

attempts_spent : Option ℤ → Option ℤ → EntitlementDecision
attempts_spent none allowed = hold
attempts_spent (some made) none = hold
attempts_spent (some made) (some allowed) = if leb_ℤ allowed made then revoke else hold

unfoldable pub decide_past_due : FlashLifecyclePolicy → EntitlementDecision
unfolding attempts_spent
decide_past_due policy = elim policy.dunning_cancels_after_final_failure [
  | none ↦ hold
  | some cancels ↦
      if cancels then hold else attempts_spent policy.dunning_attempts policy.dunning_max_attempts
]

still_paid : Option Datetime → Datetime → EntitlementDecision
still_paid none now = revoke
still_paid (some ends_at) now = if ltb now ends_at then hold else revoke

unfoldable pub decide_cancelled :
    FlashLifecyclePolicy → Option Datetime → Option Datetime → Datetime → EntitlementDecision
unfolding still_paid
decide_cancelled policy cancel_effective_date current_period_end now =
    if opt_str_eq policy.cancellation_mode (some cancellation_immediate)
    then revoke
    else still_paid (or_else cancel_effective_date current_period_end) now

unfoldable pub decide_entitlement :
    String
    → Option Datetime
    → Option Datetime
    → Datetime
    → FlashLifecyclePolicy
    → EntitlementDecision
decide_entitlement flash_status cancel_effective_date current_period_end now policy =
    if is_in flash_status entitling_statuses
    then grant
    else if is_in flash_status ended_statuses
    then revoke
    else if str_eq flash_status past_due_status
    then decide_past_due policy
    else if str_eq flash_status cancelled_status
    then decide_cancelled policy cancel_effective_date current_period_end now
    else hold
