-- ===== src/Billing/Sync/Replay/Outcomes.antt =====
-- How the replay of one event ends, in `replay_unprocessed_events` of
-- app/services/billing_sync_service.py.
use brainstorm_server.Common.{
  ℕ, String, Bool, true, false, not, ◌≡◌, refl, ap, ◌∙◌, ◌⊎◌, inl, inr, some, List, arith,
  Bool-cases, ◌==◌, present,
}
use brainstorm_server.Table.Where.{update, count, update-none}
use brainstorm_server.Flash.{Datetime}
use brainstorm_server.Billing.Tables.{Db, FlashWebhookEvent, EventData}
use brainstorm_server.Billing.Session.{
  Session, Fault, Result, ok, raise, commit, rollback, flash_unavailable, flash_credential_error,
  flash_refused, http_exception, operational_error, other,
}
use brainstorm_server.Billing.Environment.{Environment}
use brainstorm_server.Billing.Entitlement.{is_settled, EntitlementOutcome, reason_value}
use brainstorm_server.Billing.Repos.Events.{
  processed, with_error, claimed, is_claimable, claim_webhook_event_on_db,
}
use brainstorm_server.Billing.Apply.{apply_entitlement}
use brainstorm_server.Billing.Apply.Inbox.{HasInbox, apply-HasInbox, marker-events}
use brainstorm_server.Billing.Apply.Safety.{is_decided}
use brainstorm_server.Billing.Fallback.Endings.{fallback-Keeps}
use brainstorm_server.Billing.Sync.Replay.{
  on_replayed, replay_target, replay_claimed, replay_event, note_event_failure,
}

module _ (at : Datetime) (event : FlashWebhookEvent) where
  abbrev finished : List FlashWebhookEvent → List FlashWebhookEvent
  finished events = update (λ e. e.id == event.id) (processed at) events

  abbrev noted : String → List FlashWebhookEvent → List FlashWebhookEvent
  noted reason events = update (λ e. e.id == event.id) (with_error reason) events

  -- The two endings of an event that was claimed.
  abbrev pub Ended : Bool → List FlashWebhookEvent → Result ℕ × Session → Type 0
  Ended is_decided events o =
      ((is_decided ≡ true) × (o.0 ≡ ok 1) × HasInbox (finished events) o.1)
      ⊎ ((is_decided ≡ false)
          × (o.0 ≡ ok 0)
          × ((reason : String) × HasInbox (noted reason events) o.1))

  module _ (env : Environment) (repr : Fault → String) (events : List FlashWebhookEvent) where
    rolled_back :
        (reason : String) (s : Session)
        → HasInbox events s
        → HasInbox
            (noted reason events)
            (note_event_failure event.id reason (record s { db = s.saved })).1
    unfolding commit
    rolled_back reason s h = (ap (noted reason) h.1, ap (noted reason) h.1)

    failed-Ended :
        (target : EventData) (e : Fault) (s : Session)
        → HasInbox events s
        → Ended false events (on_replayed env repr at event target (raise e) s)
    unfolding rollback commit
    failed-Ended target (flash_unavailable why) s h =
        let (b, e, in_db, in_saved) =
          fallback-Keeps env (noted why events)
            (note_event_failure event.id why (record s { db = s.saved })).1 (rolled_back why s h).0
            (rolled_back why s h).1 event.event target.external_ref in
        inr (refl, rw e refl, (why, rw e (in_db, in_saved)))
    failed-Ended target flash_credential_error s h =
        inr (refl, refl, (repr flash_credential_error, rolled_back _ s h))
    failed-Ended target (flash_refused status) s h =
        inr (refl, refl, (repr (flash_refused status), rolled_back _ s h))
    failed-Ended target (http_exception status) s h =
        inr (refl, refl, (repr (http_exception status), rolled_back _ s h))
    failed-Ended target operational_error s h =
        inr (refl, refl, (repr operational_error, rolled_back _ s h))
    failed-Ended target (other why) s h = inr (refl, refl, (repr (other why), rolled_back _ s h))

    replayed-Ended :
        (target : EventData) (r : Result EntitlementOutcome) (s : Session)
        → HasInbox events s
        → Ended (is_decided r) events (on_replayed env repr at event target r s)
    unfolding commit
    replayed-Ended target (raise e) s h = failed-Ended target e s h
    replayed-Ended target (ok outcome) s h = elim (Bool-cases (is_settled outcome.reason)) [
      | inl e ↦
          let marked : Db = record s.db { events = finished s.db.events } in
          let same =
            marker-events (present target.external_ref) event.event_timestamp marked
            ∙ ap finished h.0 in
          rw e (inl (refl, refl, (same, same)))
      | inr e ↦
          let reason = reason_value outcome.reason in
          rw e (inr (refl, refl, (reason, (ap (noted reason) h.0, ap (noted reason) h.0))))
    ]

    -- Of an event that was claimed.
    claimed-Ended :
        (now : Datetime) (target : EventData) (s : Session)
        → HasInbox events s
        → Ended
            (is_decided
              (apply_entitlement env target.external_ref target.subscription_id true false now s).0)
            events
            (replay_target env repr at now event target s)
    unfolding replay_target
    claimed-Ended now target s h =
        replayed-Ended target _ _
          (apply-HasInbox env events now s h target.external_ref target.subscription_id true false)

  -- The inbox with the claim on the event.
  abbrev pub taken : ℕ → List FlashWebhookEvent → List FlashWebhookEvent
  taken stale_after events = update (is_claimable event.id at stale_after) (claimed at) events

  abbrev pub claims : ℕ → Session → Bool
  claims stale_after s = not (count (is_claimable event.id at stale_after) s.db.events == 0)

  abbrev pub with_claim : ℕ → Session → Session
  with_claim stale_after s =
      let db = record s.db { events = taken stale_after s.db.events } in
      record s { db = db; saved = db }

  -- Replaying one event with a payload never raises, whatever Flash answers. An event that another worker holds
  -- is left alone. One that this worker claims ends as processed exactly where
  -- `apply_entitlement` decides it, and is then counted; in all other cases it stays in the inbox with a
  -- reason. The inbox is committed.
  pub replay-Ended :
      (env : Environment) (repr : Fault → String) (now : Datetime) (stale_after : ℕ)
      (target : EventData) (s : Session)
      → event.payload ≡ some target
      → ((claims stale_after s ≡ true)
          × Ended
              (is_decided
                (apply_entitlement env target.external_ref target.subscription_id true false now
                  (with_claim stale_after s)).0)
              (taken stale_after s.db.events)
              (replay_event env repr at stale_after now event s))
        ⊎ ((claims stale_after s ≡ false)
            × ((replay_event env repr at stale_after now event s).0 ≡ ok 0)
            × HasInbox s.db.events (replay_event env repr at stale_after now event s).1)
  unfolding replay_event replay_claimed replay_target claim_webhook_event_on_db commit
  replay-Ended env repr now stale_after target s payload =
      elim (Bool-cases (claims stale_after s)) [
        | inl won ↦ inl (
          won,
          rw won (
              rw payload (
                claimed-Ended env repr (taken stale_after s.db.events) now target
                  (with_claim stale_after s) (refl, refl))),
        )
        | inr lost ↦
            let same =
              update-none (is_claimable event.id at stale_after) (claimed at) s.db.events
                (none_claimed _ lost) in
            inr (lost, rw lost refl, rw lost (same, same))
      ]
    where
      none_claimed : (n : ℕ) → not (n == 0) ≡ false → n ≡ 0
      none_claimed n e = ground arith
