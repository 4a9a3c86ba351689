-- ===== src/Billing/Sync/Replay.antt =====
-- `replay_unprocessed_events` of app/services/billing_sync_service.py: finish the events that were
-- acknowledged and then dropped. `at` is read once, when the batch begins; `now` is the clock of the
-- writes that `apply_entitlement` makes. `repr` is Python's, of an exception.
pub mod Claim
pub mod Outcomes
use brainstorm_server.Common.{
  ℕ, suc, ◌+◌, String, Bool, true, false, not, Option, none, some, List, [], ◌∷◌, if◌then◌else◌,
}
use brainstorm_server.Flash.{Datetime}
use brainstorm_server.Billing.Tables.{FlashWebhookEvent, EventData}
use brainstorm_server.Billing.Session.{
  Session, Exec, Fault, Result, ok, raise, pure, commit, rollback, flash_unavailable, ◌>>=◌, ◌>>◌,
}
use brainstorm_server.Billing.Environment.{Environment}
use brainstorm_server.Billing.Entitlement.{is_settled, reason_value, EntitlementOutcome}
use brainstorm_server.Billing.Repos.Subscriptions.{update_last_event_at_on_db}
use brainstorm_server.Billing.Repos.Events.{
  select_abandoned_webhook_events_on_db, claim_webhook_event_on_db,
  mark_webhook_event_processed_on_db, record_webhook_event_failure_on_db,
}
use brainstorm_server.Billing.Apply.{apply_entitlement}
use brainstorm_server.Billing.Fallback.{apply_payload_fallback}

-- `RECOGNISED_EVENTS` of app/services/flash_webhook_service.py.
abbrev pub recognised_events : List String
recognised_events =
    "subscription.activated" ∷ "subscription.renewed" ∷ "subscription.past_due"
    ∷ "subscription.canceled" ∷ "subscription.expired" ∷ []

abbrev pub note_event_failure : ℕ → String → Exec (Unit {0})
note_event_failure event_id reason = do record_webhook_event_failure_on_db event_id reason; commit

module _ (env : Environment) (repr : Fault → String) (at : Datetime) where
  -- What the `try` does with the outcome of `apply_entitlement`, and its two `except` clauses.
  abbrev pub on_replayed : FlashWebhookEvent → EventData → Result EntitlementOutcome → Exec ℕ
  on_replayed event target (ok outcome) =
      if is_settled outcome.reason
      then (do
        mark_webhook_event_processed_on_db event.id at
        update_last_event_at_on_db target.external_ref event.event_timestamp
        commit
        pure 1)
      else (do note_event_failure event.id (reason_value outcome.reason); pure 0)
  on_replayed event target (raise (flash_unavailable why)) = do
    rollback
    note_event_failure event.id why
    apply_payload_fallback env event.event target.external_ref
    pure 0
  on_replayed event target (raise failed) = do
    rollback
    note_event_failure event.id (repr failed)
    pure 0

  unfoldable pub replay_target : Datetime → FlashWebhookEvent → EventData → Exec ℕ
  replay_target now event target s =
      let run = apply_entitlement env target.external_ref target.subscription_id true false now s in
      on_replayed event target run.0 run.1

  unfoldable pub replay_claimed : Datetime → FlashWebhookEvent → Option EventData → Exec ℕ
  replay_claimed now event none = do note_event_failure event.id "payload missing"; pure 0
  replay_claimed now event (some target) = replay_target now event target

  unfoldable pub replay_event : ℕ → Datetime → FlashWebhookEvent → Exec ℕ
  replay_event stale_after now event = do
    is_ours ← claim_webhook_event_on_db event.id at stale_after
    commit
    if not is_ours then pure 0 else replay_claimed now event event.payload

  unfoldable pub replay_events : ℕ → (ℕ → Datetime) → List FlashWebhookEvent → Exec ℕ
  replay_events stale_after clock [] = pure 0
  replay_events stale_after clock (event ∷ events) = do
    here ← replay_event stale_after (clock 0) event
    rest ← replay_events stale_after (λ n. clock (suc n)) events
    pure (here + rest)

  unfoldable pub replay_unprocessed_events : ℕ → ℕ → ℕ → (ℕ → Datetime) → Exec ℕ
  replay_unprocessed_events limit stale_after max_attempts clock = do
    events ←
        select_abandoned_webhook_events_on_db at stale_after max_attempts limit recognised_events
    replay_events stale_after clock events
