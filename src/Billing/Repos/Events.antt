-- ===== src/Billing/Repos/Events.antt =====
-- app/repos/flash_webhook_event_repo.py: the inbox of Flash's deliveries.
use brainstorm_server.Common.{
  ℕ, suc, ◌+◌, String, Bool, true, false, ◌&&◌, ◌||◌, not, Option, none, some, List, [], ◌∷◌, ◌++◌,
  str_eq, ◌==◌, leb, ltb, is_none, is_some, is_in, opt_str_eq, present, if◌then◌else◌, take,
}
use mathlib.Core.List.{reverse}
use brainstorm_server.Table.Where.{select, update, count}
use brainstorm_server.Flash.{Datetime}
use brainstorm_server.Billing.Tables.{FlashWebhookEvent, EventData}
use brainstorm_server.Billing.Session.{Exec, ok, reads, writes}

abbrev pub has_key : String → List FlashWebhookEvent → Bool
has_key k [] = false
has_key k (e ∷ es) = str_eq e.dedupe_key k || has_key k es

abbrev pub is_claimed : Option Datetime → ℕ
is_claimed none = 0
is_claimed (some at) = 1

-- The row of a new delivery, as the INSERT writes it.
abbrev pub new_event :
    ℕ
    → String
    → ℕ
    → Option Datetime
    → Option String
    → Option EventData
    → String
    → Option Datetime
    → FlashWebhookEvent
new_event id event delivery_timestamp event_timestamp subscription_id payload key claimed_at =
    record {
      id = id;
      event = event;
      event_timestamp = event_timestamp;
      delivery_timestamp = delivery_timestamp;
      subscription_id = subscription_id;
      payload = payload;
      processing_started_at = claimed_at;
      processed_at = none;
      attempts = is_claimed claimed_at;
      process_error = none;
      resolved_by = none;
      resolution = none;
      dedupe_key = key;
    }

-- INSERT ... ON CONFLICT (dedupe_key) DO NOTHING RETURNING id. The sequence moves on a conflict
-- too.
unfoldable pub insert_flash_webhook_event_on_db : (ℕ → FlashWebhookEvent) → Exec (Option ℕ)
insert_flash_webhook_event_on_db row s =
    let new : FlashWebhookEvent = row s.event_seq in
    if has_key new.dedupe_key s.db.events
    then (ok none, record s { event_seq = suc s.event_seq })
    else (
      ok (some s.event_seq),
      record s {
        db = record s.db { events = s.db.events ++ new ∷ [] };
        event_seq = suc s.event_seq;
      },
    )

-- `processing_started_at` is missing, or older than the window.
unfoldable pub claim_is_stale : Datetime → ℕ → FlashWebhookEvent → Bool
claim_is_stale now stale_after e = elim e.processing_started_at [
  | none ↦ true
  | some t ↦ leb (t + stale_after) now
]

unfoldable pub is_abandoned : Datetime → ℕ → ℕ → List String → FlashWebhookEvent → Bool
unfolding claim_is_stale
is_abandoned now stale_after max_attempts events e =
    is_none e.processed_at
    && (ltb e.attempts max_attempts && (is_in e.event events && claim_is_stale now stale_after e))

-- ORDER BY created_at ASC is the order of insertion, which is the table's.
abbrev pub select_abandoned_webhook_events_on_db :
    Datetime → ℕ → ℕ → ℕ → List String → Exec (List FlashWebhookEvent)
select_abandoned_webhook_events_on_db now stale_after max_attempts limit events =
    reads λ db. take limit (select (is_abandoned now stale_after max_attempts events) db.events)

unfoldable pub is_claimable : ℕ → Datetime → ℕ → FlashWebhookEvent → Bool
unfolding claim_is_stale
is_claimable event_id now stale_after e =
    e.id == event_id && (is_none e.processed_at && claim_is_stale now stale_after e)

unfoldable pub claimed : Datetime → FlashWebhookEvent → FlashWebhookEvent
claimed now e = record e { processing_started_at = some now; attempts = suc e.attempts }

unfoldable pub claim_webhook_event_on_db : ℕ → Datetime → ℕ → Exec Bool
claim_webhook_event_on_db event_id now stale_after s =
    let test = is_claimable event_id now stale_after in
    (
      ok (not (count test s.db.events == 0)),
      record s { db = record s.db { events = update test (claimed now) s.db.events } },
    )

abbrev pub processed : Datetime → FlashWebhookEvent → FlashWebhookEvent
processed now e = record e { processed_at = some now; process_error = none }

abbrev pub mark_webhook_event_processed_on_db : ℕ → Datetime → Exec (Unit {0})
mark_webhook_event_processed_on_db event_id now =
    writes λ db. record db { events = update (λ e. e.id == event_id) (processed now) db.events }

abbrev pub with_error : String → FlashWebhookEvent → FlashWebhookEvent
with_error reason e = record e { process_error = some reason }

abbrev pub record_webhook_event_failure_on_db : ℕ → String → Exec (Unit {0})
record_webhook_event_failure_on_db event_id reason =
    writes λ db. record db { events = update (λ e. e.id == event_id) (with_error reason) db.events }

abbrev pub ref_of : Option EventData → Option String
ref_of none = none
ref_of (some d) = d.external_ref

-- No reference at all, or an empty one.
unfoldable pub is_unattributed : FlashWebhookEvent → Bool
is_unattributed e = is_none (present (ref_of e.payload))

unfoldable pub is_open_for : String → Bool → FlashWebhookEvent → Bool
unfolding is_unattributed
is_open_for subscription_id only_unattributed e =
    opt_str_eq e.subscription_id (some subscription_id)
    && (is_none e.processed_at && (not only_unattributed || is_unattributed e))

unfoldable pub settled : Datetime → String → String → FlashWebhookEvent → FlashWebhookEvent
settled now resolution resolved_by e = record e {
  processed_at = some now;
  process_error = none;
  resolution = some resolution;
  resolved_by = some resolved_by;
}

-- Returns how many were settled.
unfoldable pub settle_unresolved_events_on_db : String → Datetime → String → String → Bool → Exec ℕ
settle_unresolved_events_on_db subscription_id now resolution resolved_by only_unattributed s =
    let test = is_open_for subscription_id only_unattributed in
    (
      ok (count test s.db.events),
      record s {
        db = record s.db { events = update test (settled now resolution resolved_by) s.db.events };
      },
    )

-- The two halves of the report on deliveries that did not apply, newest first.
unfoldable pub is_unapplied : FlashWebhookEvent → Bool
is_unapplied e = is_none e.processed_at && is_some e.process_error

abbrev pub select_unresolved_signups_on_db : ℕ → Exec (List FlashWebhookEvent)
select_unresolved_signups_on_db limit =
    reads λ db. take limit (reverse (select (λ e. is_unapplied e && is_unattributed e) db.events))

abbrev pub select_unmapped_plan_events_on_db : ℕ → Exec (List FlashWebhookEvent)
select_unmapped_plan_events_on_db limit =
    reads
      λ db. take limit (reverse (select (λ e. is_unapplied e && not (is_unattributed e)) db.events))

abbrev pub names_plan : String → String → Option EventData → Bool
names_plan service_id plan_id none = false
names_plan service_id plan_id (some d) =
    opt_str_eq d.service_id (some service_id) && opt_str_eq d.plan_id (some plan_id)

unfoldable pub awaits_plan : String → String → String → FlashWebhookEvent → Bool
awaits_plan service_id plan_id error e =
    is_none e.processed_at
    && (opt_str_eq e.process_error (some error) && names_plan service_id plan_id e.payload)

unfoldable pub replayable : FlashWebhookEvent → FlashWebhookEvent
replayable e = record e { attempts = 0; process_error = none }

unfoldable pub reset_events_awaiting_plan_on_db : String → String → String → Exec ℕ
reset_events_awaiting_plan_on_db service_id plan_id error s =
    let test = awaits_plan service_id plan_id error in
    (
      ok (count test s.db.events),
      record s { db = record s.db { events = update test replayable s.db.events } },
    )

abbrev pub select_exhausted_events_on_db : ℕ → ℕ → Exec (List FlashWebhookEvent)
select_exhausted_events_on_db max_attempts limit =
    reads λ db.
      take limit (select (λ e. is_none e.processed_at && leb max_attempts e.attempts) db.events)
