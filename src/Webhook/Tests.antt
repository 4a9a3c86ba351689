-- ===== src/Webhook/Tests.antt =====
-- The theorems of the webhook modules at concrete deliveries.
use brainstorm_server.Common.{
  if◌then◌else◌, str_eq, ℕ, zero, suc, ◌+◌, String, true, false, ◌≡◌, ◌↔◌, refl, ◌⊎◌, Option, none,
  some, [], ◌∷◌, arith,
}
use brainstorm_server.Common.Int.{pos}
use brainstorm_server.Table.Where.{count}
use brainstorm_server.Flash.{Datetime}
use brainstorm_server.Billing.Tables.{Db, EventData}
use brainstorm_server.Billing.Session.{Exec, Fault, ok}
use brainstorm_server.Billing.Entitlement.{EntitlementOutcome, held}
use brainstorm_server.Billing.Apply.{refuse}
use brainstorm_server.Billing.Apply.Safety.{is_decided}
use brainstorm_server.Billing.Fixtures.{session, outage}
use brainstorm_server.Webhook.Header.{Text, SignatureParts, parse_signature_header, sample}
use brainstorm_server.Webhook.Delivery.{Payload, RecordedDelivery, needs_processing}
use brainstorm_server.Webhook.Recording.{record_delivery}
use brainstorm_server.Webhook.Recording.Uniqueness.{
  InboxIsSound, record-IsSound, record_once, delivered,
}
use brainstorm_server.Webhook.Recording.Attempts.{attempts-collide}
use brainstorm_server.Webhook.Processing.{apply_with_db_retries, process_delivery}
use brainstorm_server.Webhook.Processing.Endings.{Ended, process-Ended}
use brainstorm_server.Webhook.Verification.{accepted, verify_delivery}
use brainstorm_server.Webhook.Verification.Soundness.{AnyOf, IsFresh, SignedBy, verify_iff}

abbrev renewal_data : EventData
renewal_data = record {
  external_ref = some "alice";
  subscription_id = some "sub_1";
  service_id = some "svc";
  plan_id = some "pro";
}

abbrev renewal : Payload
renewal = record {
  event = some "subscription.renewed";
  event_data = some renewal_data;
  field = λ name. some "42";
  timestamp = some 90;
}

record-IsSound_example : InboxIsSound (record_delivery (some renewal) "d1" 7 100 session).1
unfolding count
record-IsSound_example = record-IsSound (some renewal) "d1" 7 100 session (record {
  ids_fresh = λ id h. refl;
  ids_unique = λ id. omega arith;
  keys_unique = λ key. omega arith;
})

record_once_example :
    let first = record_delivery (some renewal) "d1" 7 100 session in
    let second = record_delivery (some renewal) "d1" 9 130 first.1 in
    (second.0 ≡ ok (delivered (some renewal) "d1" 7 100 session none))
    × (second.1.db.events ≡ first.1.db.events)
    × (first.1.saved ≡ first.1.db)
    × (second.1.saved ≡ second.1.db)
record_once_example = record_once (some renewal) "d1" 7 9 100 130 session

-- Two failed payments, of two billing periods.
abbrev failed_on : String → Payload
failed_on day = record renewal {
  event = some "subscription.past_due";
  field = λ name. if str_eq name "attemptNumber" then some "1" else some day;
}

attempts-collide_example :
    (record_delivery
      (some (failed_on "2026-02-01"))
      "d2"
      9
      130
      (record_delivery (some (failed_on "2026-01-01")) "d1" 7 100 session).1).0
    ≡ ok (delivered (some (failed_on "2026-02-01")) "d2" 9 130 session none)
attempts-collide_example =
    attempts-collide (failed_on "2026-01-01") (failed_on "2026-02-01") renewal_data renewal_data
      "d1" "d2" "1" refl refl refl refl refl refl refl 7 9 100 130 session

-- The database breaks off the first two attempts.
abbrev interrupt : ℕ → Option Db
interrupt zero = none
interrupt (suc zero) = some session.db
interrupt (suc (suc zero)) = some session.db
interrupt (suc (suc (suc n))) = none

abbrev attempt : ℕ → Exec EntitlementOutcome
attempt n s = (ok (refuse held), s)

abbrev describe : Fault → String
describe e = "Exception"

abbrev clock : ℕ → Datetime
clock n = 100 + n

abbrev recorded : RecordedDelivery
recorded = record {
  event_id = some 1;
  event = "subscription.renewed";
  subscription_id = some "sub_1";
  external_ref = some "alice";
  is_duplicate = false;
  event_timestamp = some 90;
}

process-Ended_example :
    ((needs_processing recorded ≡ false)
      × (process_delivery outage describe interrupt clock 200 recorded session ≡ (ok tt, session)))
    ⊎ ((needs_processing recorded ≡ true)
        × Ended outage describe interrupt clock 200 [] recorded 1
            (is_decided
              (apply_with_db_retries outage describe interrupt clock 200 recorded session).0)
            (process_delivery outage describe interrupt clock 200 recorded session))
process-Ended_example =
    process-Ended outage describe interrupt clock 200 [] recorded 1 session (refl, refl) refl

abbrev mac : Text → Text → Text
mac key message = 97 ∷ 98 ∷ []

abbrev encode : Text → Text
encode s = s

abbrev sample_parts : SignatureParts
sample_parts = record { timestamp = pos 12; signature = 97 ∷ 98 ∷ [] }

verify_iff_example :
    (verify_delivery mac encode (some sample) [] ((97 ∷ []) ∷ []) 20 300 ≡ accepted sample_parts)
    ↔ ((parse_signature_header (some sample) ≡ some sample_parts)
        × IsFresh (pos 12) 20 300
        × AnyOf (SignedBy mac encode [] sample_parts) ((97 ∷ []) ∷ []))
verify_iff_example = verify_iff mac encode [] sample_parts (some sample) ((97 ∷ []) ∷ []) 20 300
