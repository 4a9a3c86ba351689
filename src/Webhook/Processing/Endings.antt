-- ===== src/Webhook/Processing/Endings.antt =====
-- How the processing of one delivery ends, in `process_delivery` of
-- app/services/flash_webhook_service.py.
use brainstorm_server.Common.{
  ℕ, zero, suc, String, Bool, true, false, ◌≡◌, refl, ap, ◌∙◌, ◌⊎◌, inl, inr, Option, none, some,
  List, Bool-cases, ◌==◌, present,
}
use brainstorm_server.Table.Where.{update}
use brainstorm_server.Flash.{Datetime}
use brainstorm_server.Billing.Tables.{Db, FlashWebhookEvent}
use brainstorm_server.Billing.Session.{
  Session, Exec, Fault, Result, ok, raise, commit, rollback, flash_unavailable,
  flash_credential_error, flash_refused, http_exception, operational_error, other,
}
use brainstorm_server.Billing.Environment.{Environment}
use brainstorm_server.Billing.Entitlement.{is_settled, EntitlementOutcome, reason_value}
use brainstorm_server.Billing.Repos.Events.{processed, with_error}
use brainstorm_server.Billing.Apply.{apply_entitlement}
use brainstorm_server.Billing.Apply.Inbox.{HasInbox, apply-HasInbox, marker-events}
use brainstorm_server.Billing.Apply.Safety.{is_decided}
use brainstorm_server.Billing.Fallback.Endings.{fallback-Keeps}
use brainstorm_server.Webhook.Delivery.{RecordedDelivery, needs_processing}
use brainstorm_server.Webhook.Processing.{
  broken_off, on_attempt, with_db_retries, attempt_for, apply_with_db_retries, record_failure,
  note_outcome, on_processed, process_delivery,
}

-- What an attempt leaves: an inbox that is still this one, after an exception at least where it is
-- committed.
abbrev Leaves : List FlashWebhookEvent → Result EntitlementOutcome × Session → Type 0
Leaves events (ok x, s) = HasInbox events s
Leaves events (raise e, s) = s.saved.events ≡ events

module _ (events : List FlashWebhookEvent) where
  Leaves-weaken :
      (r : Result EntitlementOutcome) (s : Session) → HasInbox events s → Leaves events (r, s)
  Leaves-weaken (ok x) s h = h
  Leaves-weaken (raise e) s h = h.1

  module _ (attempt : ℕ → Exec EntitlementOutcome)
      (kept : (n : ℕ) (s : Session) → HasInbox events s → Leaves events (attempt n s)) where
    on_attempt-Leaves :
        (next : Exec EntitlementOutcome)
        → ((s : Session) → HasInbox events s → Leaves events (next s))
        → (r : Result EntitlementOutcome) (s : Session) → Leaves events (r, s)
        → Leaves events (on_attempt next r s)
    unfolding rollback
    on_attempt-Leaves next then (ok x) s h = h
    on_attempt-Leaves next then (raise operational_error) s h =
        then (record s { db = s.saved }) (h, h)
    on_attempt-Leaves next then (raise (flash_unavailable why)) s h = h
    on_attempt-Leaves next then (raise flash_credential_error) s h = h
    on_attempt-Leaves next then (raise (flash_refused status)) s h = h
    on_attempt-Leaves next then (raise (http_exception status)) s h = h
    on_attempt-Leaves next then (raise (other why)) s h = h

    retries-Leaves :
        (left n : ℕ) (s : Session)
        → HasInbox events s
        → Leaves events (with_db_retries attempt n left s)
    unfolding with_db_retries
    retries-Leaves zero n s h = kept n s h
    retries-Leaves (suc left) n s h =
        on_attempt-Leaves (with_db_retries attempt (suc n) left) (retries-Leaves left (suc n))
          (attempt n s).0 (attempt n s).1 (kept n s h)

module _ (env : Environment) (describe : Fault → String) (interrupt : ℕ → Option Db)
    (clock : ℕ → Datetime) (now : Datetime) (events : List FlashWebhookEvent)
    (r : RecordedDelivery) where
  attempt-Leaves :
      (n : ℕ) (s : Session)
      → HasInbox events s
      → Leaves events (attempt_for env describe interrupt clock now r n s)
  attempt-Leaves n s h = cases (interrupt n)
    where
      cases :
          (o : Option Db)
          → Leaves events (
              broken_off o
                (apply_entitlement env r.external_ref r.subscription_id false false (clock n))
                s)
      cases (some db) = h.1
      cases none =
          Leaves-weaken events _ _
            (apply-HasInbox env events (clock n) s h r.external_ref r.subscription_id false false)

  apply-Leaves :
      (s : Session)
      → HasInbox events s
      → Leaves events (apply_with_db_retries env describe interrupt clock now r s)
  unfolding apply_with_db_retries
  apply-Leaves =
      retries-Leaves events (attempt_for env describe interrupt clock now r) attempt-Leaves 2 1

  module _ (id : ℕ) where
    abbrev finished : List FlashWebhookEvent
    finished = update (λ e. e.id == id) (processed now) events

    abbrev noted : String → List FlashWebhookEvent
    noted reason = update (λ e. e.id == id) (with_error reason) events

    -- The two endings of a delivery that is processed.
    abbrev pub Ended : Bool → Result (Unit {0}) × Session → Type 0
    Ended is_decided o =
        (o.0 ≡ ok tt)
        × (((is_decided ≡ true) × HasInbox finished o.1)
            ⊎ ((is_decided ≡ false) × ((reason : String) × HasInbox (noted reason) o.1)))

    outcome-Ended :
        (x : EntitlementOutcome) (s : Session)
        → HasInbox events s
        → Ended
            (is_settled x.reason)
            (note_outcome env describe interrupt clock now r (some id) x s)
    unfolding commit
    outcome-Ended x s h = elim (Bool-cases (is_settled x.reason)) [
      | inl e ↦
          let marked : Db = record s.db {
            events = update (λ e. e.id == id) (processed now) s.db.events;
          } in
          let same =
            marker-events (present r.external_ref) r.event_timestamp marked
            ∙ ap (update (λ e. e.id == id) (processed now)) h.0 in
          rw e (refl, inl (refl, (same, same)))
      | inr e ↦
          let same = ap (update (λ e. e.id == id) (with_error (reason_value x.reason))) h.0 in
          rw e (refl, inr (refl, (reason_value x.reason, (same, same))))
    ]

    failure-Ended :
        (e : Fault) (s : Session)
        → s.saved.events ≡ events
        → HasInbox
            (noted (describe e))
            (record_failure env describe interrupt clock now (some id) e s).1
    unfolding record_failure rollback commit
    failure-Ended e s h =
        let same = ap (update (λ v. v.id == id) (with_error (describe e))) h in (same, same)

    processed-Ended :
        (x : Result EntitlementOutcome) (s : Session)
        → Leaves events (x, s)
        → r.event_id ≡ some id
        → Ended (is_decided x) (on_processed env describe interrupt clock now r x s)
    unfolding record_failure rollback commit
    processed-Ended (ok x) s h known = rw known (outcome-Ended x s h)
    processed-Ended (raise (flash_unavailable why)) s h known =
        let e = flash_unavailable why in
        let t = (record_failure env describe interrupt clock now (some id) e s).1 in
        let inbox : HasInbox (noted (describe e)) t = failure-Ended e s h in
        let (b, fine, in_db, in_saved) =
          fallback-Keeps env (noted (describe e)) t inbox.0 inbox.1 r.event r.external_ref in
        rw known (rw fine refl, inr (refl, (describe e, rw fine (in_db, in_saved))))
    processed-Ended (raise e) s h known =
        rw known (refl, inr (refl, (describe e, failure-Ended e s h)))

  -- Processing a delivery that has a row, from an inbox that is committed, never raises, whatever
  -- Flash answers and whichever attempts the database breaks off. One that needs no processing
  -- changes nothing. Any other ends as processed exactly where `apply_entitlement`,
  -- with its retries, decides it, and else stays in the inbox with a reason; the inbox is committed.
  pub process-Ended :
      (id : ℕ) (s : Session)
      → HasInbox events s
      → r.event_id ≡ some id
      → ((needs_processing r ≡ false)
          × (process_delivery env describe interrupt clock now r s ≡ (ok tt, s)))
        ⊎ ((needs_processing r ≡ true)
            × Ended id
                (is_decided (apply_with_db_retries env describe interrupt clock now r s).0)
                (process_delivery env describe interrupt clock now r s))
  unfolding process_delivery
  process-Ended id s h known = elim (Bool-cases (needs_processing r)) [
    | inr e ↦ inl (e, rw e)
    | inl e ↦ inr (
      e,
      rw e (
          processed-Ended id (apply_with_db_retries env describe interrupt clock now r s).0
            (apply_with_db_retries env describe interrupt clock now r s).1 (apply-Leaves s h)
            known),
    )
  ]
