-- ===== src/Webhook/Processing.antt =====
-- `process_delivery` of app/services/flash_webhook_service.py, after the acknowledgement, with its
-- retries of a failing database. `interrupt` says which attempts the database breaks off, and what
-- the transaction then holds; `clock` is the time at each attempt, `now` the time after them.
-- `describe` is the text of an exception, cut to its length.
pub mod Retries
pub mod Endings
use brainstorm_server.Common.{
  ℕ, zero, suc, String, Bool, false, Option, none, some, not, if◌then◌else◌,
}
use brainstorm_server.Flash.{Datetime}
use brainstorm_server.Billing.Tables.{Db}
use brainstorm_server.Billing.Session.{
  Session, Exec, Fault, Result, ok, raise, throw, pure, commit, rollback, flash_unavailable,
  operational_error, ◌>>=◌, ◌>>◌,
}
use brainstorm_server.Billing.Environment.{Environment}
use brainstorm_server.Billing.Entitlement.{EntitlementOutcome, is_settled, reason_value}
use brainstorm_server.Billing.Repos.Subscriptions.{update_last_event_at_on_db}
use brainstorm_server.Billing.Repos.Events.{
  mark_webhook_event_processed_on_db, record_webhook_event_failure_on_db,
}
use brainstorm_server.Billing.Apply.{apply_entitlement}
use brainstorm_server.Billing.Fallback.{apply_payload_fallback}
use brainstorm_server.Webhook.Delivery.{RecordedDelivery, needs_processing}

-- An attempt that the database broke off, or what it comes to by itself.
abbrev pub broken_off {ℓ} : {A : Type ℓ} → Option Db → Exec A → Exec A
broken_off none attempt s = attempt s
broken_off (some db) attempt s = (raise operational_error, record s { db = db })

-- The `except (OperationalError, InterfaceError)` of one attempt that is not the last.
abbrev pub on_attempt {ℓ} : {A : Type ℓ} → Exec A → Result A → Exec A
on_attempt next (ok a) = pure a
on_attempt next (raise operational_error) = do rollback; next
on_attempt next (raise e) = throw e

abbrev pub caught {ℓ} : {A : Type ℓ} → Exec A → Exec A → Exec A
caught attempt next s = on_attempt next (attempt s).0 (attempt s).1

-- Attempt `n`, and `left` more after it.
unfoldable pub with_db_retries {ℓ} : {A : Type ℓ} → (ℕ → Exec A) → ℕ → ℕ → Exec A
with_db_retries attempt n zero = attempt n
with_db_retries attempt n (suc left) = caught (attempt n) (with_db_retries attempt (suc n) left)

module _ (env : Environment) (describe : Fault → String) (interrupt : ℕ → Option Db)
    (clock : ℕ → Datetime) (now : Datetime) where
  abbrev pub attempt_for : RecordedDelivery → ℕ → Exec EntitlementOutcome
  attempt_for r n =
      broken_off (interrupt n)
        (apply_entitlement env r.external_ref r.subscription_id false false (clock n))

  -- `_apply_with_db_retries`: three attempts.
  unfoldable pub apply_with_db_retries : RecordedDelivery → Exec EntitlementOutcome
  apply_with_db_retries r = with_db_retries (attempt_for r) 1 2

  unfoldable pub record_failure : Option ℕ → Fault → Exec (Unit {0})
  record_failure none e = pure tt
  record_failure (some event_id) e = do
    rollback
    record_webhook_event_failure_on_db event_id (describe e)
    commit

  abbrev pub note_outcome : RecordedDelivery → Option ℕ → EntitlementOutcome → Exec (Unit {0})
  note_outcome r none outcome = pure tt
  note_outcome r (some event_id) outcome = do
    if is_settled outcome.reason
        then (do
          mark_webhook_event_processed_on_db event_id now
          update_last_event_at_on_db r.external_ref r.event_timestamp)
        else record_webhook_event_failure_on_db event_id (reason_value outcome.reason)
    commit

  abbrev pub on_processed : RecordedDelivery → Result EntitlementOutcome → Exec (Unit {0})
  on_processed r (ok outcome) = note_outcome r r.event_id outcome
  on_processed r (raise (flash_unavailable why)) = do
    record_failure r.event_id (flash_unavailable why)
    apply_payload_fallback env r.event r.external_ref
    pure tt
  on_processed r (raise e) = record_failure r.event_id e

  unfoldable pub process_delivery : RecordedDelivery → Exec (Unit {0})
  process_delivery r s =
      if not (needs_processing r)
      then pure tt s
      else on_processed r (apply_with_db_retries r s).0 (apply_with_db_retries r s).1
