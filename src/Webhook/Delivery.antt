-- ===== src/Webhook/Delivery.antt =====
-- What a delivery is, in app/services/flash_webhook_service.py. A body is given by what the code
-- reads of it: JSON itself, the MAC and the digest are those of Python's library.
use brainstorm_server.Common.{
  ℕ, String, Bool, not, ◌&&◌, Option, none, some, List, [], ◌∷◌, is_in, is_some, str_eq, present,
  if◌then◌else◌,
}
use Prim.Native.String.{◌++◌}
use brainstorm_server.Flash.{Datetime}
use brainstorm_server.Billing.Tables.{EventData}
use brainstorm_server.Billing.Sync.Replay.{recognised_events}

abbrev pub malformed_event : String
malformed_event = "_malformed"

abbrev pub probe_event : String
probe_event = "credential.check"

-- A body that is a JSON object: its `event` if that is a text, its `data` if that is an object, the
-- texts of the fields of `data` that are not null, and the time in `timestamp`.
pub record Payload : Type 0 where
  pub event : Option String
  pub event_data : Option EventData
  pub field : String → Option String
  pub timestamp : Option Datetime

pub record DeliveryTarget : Type 0 where
  pub external_ref : Option String
  pub subscription_id : Option String

-- A body with no `data` object names nobody.
abbrev pub no_data : EventData
no_data = record { external_ref = none; subscription_id = none; service_id = none; plan_id = none }

abbrev pub data_of : Option Payload → EventData
data_of none = no_data
data_of (some p) = elim p.event_data [ none ↦ no_data | some d ↦ d ]

abbrev pub delivery_target : EventData → DeliveryTarget
delivery_target d = record { external_ref = d.external_ref; subscription_id = d.subscription_id }

pub record RecordedDelivery : Type 0 where
  pub event_id : Option ℕ
  pub event : String
  pub subscription_id : Option String
  pub external_ref : Option String
  pub is_duplicate : Bool
  pub event_timestamp : Option Datetime

unfoldable pub needs_processing : RecordedDelivery → Bool
needs_processing r = not r.is_duplicate && (is_some r.event_id && is_in r.event recognised_events)

-- `_read_body`, of a body that is a JSON object or not: the name of the event.
unfoldable pub event_name : Option Payload → String
event_name none = malformed_event
event_name (some p) = elim (present p.event) [ none ↦ malformed_event | some event ↦ event ]

abbrev pub timestamp_of : Option Payload → Option Datetime
timestamp_of none = none
timestamp_of (some p) = p.timestamp

-- `_DISCRIMINATORS.get(event, ())`.
unfoldable pub discriminators : String → List String
discriminators event =
    if str_eq event "subscription.activated"
    then "activatedAt" ∷ []
    else if str_eq event "subscription.renewed"
    then "invoiceId" ∷ "periodNumber" ∷ []
    else if str_eq event "subscription.past_due"
    then "attemptNumber" ∷ "firstFailedAt" ∷ []
    else if str_eq event "subscription.canceled"
    then "canceledAt" ∷ []
    else if str_eq event "subscription.expired"
    then "expiredAt" ∷ []
    else []

abbrev field_of : Option Payload → String → Option String
field_of none name = none
field_of (some p) name = elim p.event_data [ none ↦ none | some d ↦ p.field name ]

abbrev text_or_empty : Option String → String
text_or_empty none = ""
text_or_empty (some s) = s

-- The first field that is there tells this occurrence apart; otherwise the digest of the bytes does.
unfoldable pub occurrence : (String → Option String) → String → List String → String
occurrence field digest [] = "sha256=" ++ digest
occurrence field digest (name ∷ names) = elim (field name) [
  | none ↦ occurrence field digest names
  | some value ↦ name ++ ("=" ++ value)
]

unfoldable pub build_dedupe_key : String → Option Payload → String → String
build_dedupe_key event payload digest =
    text_or_empty (delivery_target (data_of payload)).subscription_id
    ++ (":" ++ (event ++ (":" ++ occurrence (field_of payload) digest (discriminators event))))
