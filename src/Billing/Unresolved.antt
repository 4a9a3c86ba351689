-- ===== src/Billing/Unresolved.antt =====
-- Signups that named nobody, in app/services/billing_service.py: attributed by an operator to the
-- person who made them, or written off as not a customer.
pub mod Settled
pub mod Attribution
mod Tests
use brainstorm_server.Common.{
  ℕ, String, Bool, true, false, not, Option, none, some, is_some, str_eq, ◌&&◌, ◌==◌, if◌then◌else◌,
}
use brainstorm_server.Flash.{Datetime}
use brainstorm_server.Billing.Tables.{UserSubscription}
use brainstorm_server.Billing.Session.{
  Exec, http_exception, pure, throw, commit, rollback, ◌>>=◌, ◌>>◌,
}
use brainstorm_server.Billing.Environment.{Environment}
use brainstorm_server.Billing.Entitlement.{
  EntitlementReason, unknown_user, unknown_subscription, attributed, dismissed, EntitlementOutcome,
  is_settled, reason_value,
}
use brainstorm_server.Billing.Repos.Subscriptions.{
  get_user_subscription_on_db, get_user_subscription_by_flash_id_on_db,
}
use brainstorm_server.Billing.Repos.Events.{settle_unresolved_events_on_db}
use brainstorm_server.Billing.Apply.{apply_entitlement}

pub record ResolutionOutcome : Type 0 where
  pub subscription_id : String
  pub resolution : EntitlementReason
  pub pubkey : Option String
  pub applied : Bool
  pub events_settled : ℕ
  pub entitlement_reason : Option EntitlementReason

-- The status of `_ATTRIBUTION_REFUSALS`, for the reasons that do not settle.
abbrev pub refusal_status : EntitlementReason → ℕ
refusal_status unknown_user = 404
refusal_status unknown_subscription = 404
refusal_status _ = 409

abbrev pub held_by_another : Option UserSubscription → String → Bool
held_by_another none pubkey = false
held_by_another (some holder) pubkey = not (str_eq holder.pubkey pubkey)

abbrev pub require_settled : EntitlementOutcome → Exec (Bool × EntitlementReason)
require_settled outcome =
    if not (is_settled outcome.reason)
    then throw (http_exception (refusal_status outcome.reason))
    else pure (outcome.applied, outcome.reason)

module _ (env : Environment) (now : Datetime) where
  -- Already theirs, or a grant through the ordinary path, where a subscription may name nobody.
  unfoldable pub attribute_grant :
      Option UserSubscription → String → String → Exec (Bool × EntitlementReason)
  attribute_grant (some holder) subscription_id pubkey = pure (false, attributed)
  attribute_grant none subscription_id pubkey = do
    existing ← get_user_subscription_on_db pubkey
    if is_some existing then throw (http_exception 409) else (do
      outcome ← apply_entitlement env (some pubkey) (some subscription_id) false true now
      require_settled outcome)

  -- The events are settled after the grant.
  unfoldable pub settle_attributed :
      String → String → String → Bool × EntitlementReason → Exec ResolutionOutcome
  settle_attributed subscription_id pubkey acting_pubkey (applied, reason) = do
    settled ←
        settle_unresolved_events_on_db subscription_id now (reason_value attributed) acting_pubkey
          false
    commit
    pure (record {
      subscription_id = subscription_id;
      resolution = attributed;
      pubkey = some pubkey;
      applied = applied;
      events_settled = settled;
      entitlement_reason = some reason;
    })

  unfoldable pub attribute_unresolved_subscription :
      String → String → String → Exec ResolutionOutcome
  attribute_unresolved_subscription subscription_id pubkey acting_pubkey = do
    holder ← get_user_subscription_by_flash_id_on_db subscription_id
    if held_by_another holder pubkey then throw (http_exception 409) else (do
      granted ← attribute_grant holder subscription_id pubkey
      settle_attributed subscription_id pubkey acting_pubkey granted)

unfoldable pub dismiss_unresolved_subscription : Datetime → String → String → Exec ResolutionOutcome
dismiss_unresolved_subscription now subscription_id acting_pubkey = do
  settled ←
      settle_unresolved_events_on_db subscription_id now (reason_value dismissed) acting_pubkey true
  if settled == 0 then (do rollback; throw (http_exception 404)) else (do
    commit
    pure (record {
      subscription_id = subscription_id;
      resolution = dismissed;
      pubkey = none;
      applied = false;
      events_settled = settled;
      entitlement_reason = none;
    }))
