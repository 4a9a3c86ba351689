-- ===== src/Webhook/Recording.antt =====
-- `record_delivery` and `handle_delivery` of app/services/flash_webhook_service.py: one delivery is
-- one row, committed before it is acknowledged. `digest` is the SHA-256 of the body's bytes.
pub mod Uniqueness
pub mod Attempts
use brainstorm_server.Common.{
  ℕ, String, Bool, Option, none, some, not, is_some, str_eq, if◌then◌else◌,
}
use brainstorm_server.Flash.{Datetime}
use brainstorm_server.Billing.Session.{Exec, pure, commit, ◌>>=◌, ◌>>◌}
use brainstorm_server.Billing.Repos.Events.{
  new_event, insert_flash_webhook_event_on_db, mark_webhook_event_processed_on_db,
}
use brainstorm_server.Webhook.Delivery.{
  Payload, RecordedDelivery, delivery_target, DeliveryTarget, event_name, data_of, timestamp_of,
  build_dedupe_key, probe_event,
}

abbrev pub key_of : Option Payload → String → String
key_of payload digest = build_dedupe_key (event_name payload) payload digest

module _ (payload : Option Payload) (digest : String) (delivery_timestamp : ℕ)
    (claimed_at : Datetime) where
  unfoldable pub record_delivery : Exec RecordedDelivery
  record_delivery = do
    let target : DeliveryTarget = delivery_target (data_of payload)
    event_id ← insert_flash_webhook_event_on_db (λ id.
        new_event id (event_name payload) delivery_timestamp (timestamp_of payload)
          target.subscription_id (some (data_of payload)) (key_of payload digest) (some claimed_at))
    commit
    pure (record {
      event_id = event_id;
      event = event_name payload;
      subscription_id = target.subscription_id;
      external_ref = target.external_ref;
      is_duplicate = not (is_some event_id);
      event_timestamp = timestamp_of payload;
    })

  abbrev mark_probe : Option ℕ → Exec (Unit {0})
  mark_probe none = pure tt
  mark_probe (some id) = do mark_webhook_event_processed_on_db id claimed_at; commit

  -- The credential probe is done with once it is recorded.
  unfoldable pub handle_delivery : Exec RecordedDelivery
  handle_delivery = do
    recorded ← record_delivery
    if str_eq recorded.event probe_event
        then (do mark_probe recorded.event_id; pure recorded)
        else pure recorded
