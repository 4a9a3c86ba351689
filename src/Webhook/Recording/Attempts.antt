-- ===== src/Webhook/Recording/Attempts.antt =====
-- The dedupe key of a failed payment, in `build_dedupe_key` of app/services/flash_webhook_service.py.
use brainstorm_server.Common.{ℕ, String, ◌≡◌, refl, ap, subst, none, some, true}
use brainstorm_server.Flash.{Datetime}
use brainstorm_server.Billing.Tables.{EventData}
use brainstorm_server.Billing.Session.{Session, ok}
use brainstorm_server.Billing.Repos.Events.{has_key}
use brainstorm_server.Webhook.Delivery.{
  Payload, event_name, build_dedupe_key, occurrence, discriminators,
}
use brainstorm_server.Webhook.Recording.{key_of, record_delivery}
use brainstorm_server.Webhook.Recording.Uniqueness.{delivered, record-has_key, record-known}

module _ (p q : Payload) (mine yours : EventData) (digest digest' n : String)
    (failed : p.event ≡ some "subscription.past_due")
    (failed' : q.event ≡ some "subscription.past_due") (here : p.event_data ≡ some mine)
    (here' : q.event_data ≡ some yours) (same : mine.subscription_id ≡ yours.subscription_id)
    (attempt : p.field "attemptNumber" ≡ some n) (attempt' : q.field "attemptNumber" ≡ some n) where
  attempts-key : key_of (some p) digest ≡ key_of (some q) digest'
  unfolding build_dedupe_key event_name occurrence discriminators
  attempts-key = rw failed (
      rw failed'
        (rw here (rw here' (rw (attempt, occurrence) (rw (attempt', occurrence) (rw same refl))))))

  -- Two failed payments of one subscription with the same attempt number are one delivery, whatever
  -- else they say: after the first is recorded the second is a duplicate, also where its first
  -- failure, and so its billing period, is another.
  pub attempts-collide :
      (sent again : ℕ) (claimed_at later : Datetime) (s : Session)
      → (record_delivery
          (some q)
          digest'
          again
          later
          (record_delivery (some p) digest sent claimed_at s).1).0
        ≡ ok (delivered (some q) digest' again later s none)
  attempts-collide sent again claimed_at later s =
      let first = (record_delivery (some p) digest sent claimed_at s).1 in
      ap (λ o. o.0)
        (record-known (some q) digest' again later first (
          subst (λ k. has_key k first.db.events ≡ true) attempts-key
            (record-has_key (some p) digest sent claimed_at s)))
