-- ===== src/Webhook/Recording/Uniqueness.antt =====
-- One delivery is one row: what `record_delivery` of app/services/flash_webhook_service.py keeps
-- true of the inbox.
use brainstorm_server.Common.{
  ℕ, suc, ◌+◌, ◌≤◌, ◌==◌, String, Bool, true, false, not, ◌≡◌, refl, ap, subst, ◌∙◌, Option, none,
  some, is_some, List, [], ◌∷◌, ◌++◌, arith, Bool-cases, inl, inr, str_eq, str_eq_refl, eq_iff,
  if◌then◌else◌,
}
use brainstorm_server.Table.Where.{count}
use brainstorm_server.Flash.{Datetime}
use brainstorm_server.Billing.Tables.{FlashWebhookEvent}
use brainstorm_server.Billing.Session.{Session, ok, commit}
use brainstorm_server.Billing.Repos.Events.{has_key, new_event, insert_flash_webhook_event_on_db}
use brainstorm_server.Webhook.Delivery.{
  Payload, RecordedDelivery, event_name, data_of, timestamp_of,
}
use brainstorm_server.Webhook.Recording.{key_of, record_delivery}

abbrev pub has_id : ℕ → FlashWebhookEvent → Bool
has_id id e = e.id == id

abbrev pub is_keyed : String → FlashWebhookEvent → Bool
is_keyed key e = str_eq e.dedupe_key key

-- Ids and dedupe keys are unique, and the sequence is ahead of every id.
pub record InboxIsSound (s : Session) : Type 0 where
  pub ids_fresh : (id : ℕ) → s.event_seq ≤ id → count (has_id id) s.db.events ≡ 0
  pub ids_unique : (id : ℕ) → count (has_id id) s.db.events ≤ 1
  pub keys_unique : (key : String) → count (is_keyed key) s.db.events ≤ 1

count-append :
    (test : FlashWebhookEvent → Bool) (es : List FlashWebhookEvent) (e : FlashWebhookEvent)
    → count test (es ++ e ∷ []) ≡ count test es + (if test e then 1 else 0)
unfolding count
count-append test [] e = ground arith
count-append test (x ∷ es) e = ground (arith, count-append test es e)

unkeyed :
    (key : String) (es : List FlashWebhookEvent)
    → has_key key es ≡ false
    → count (is_keyed key) es ≡ 0
unfolding count
unkeyed key [] h = refl
unkeyed key (e ∷ es) h = ground (arith, unkeyed key es)

has_key-append :
    (key : String) (es : List FlashWebhookEvent) (e : FlashWebhookEvent)
    → str_eq e.dedupe_key key ≡ true
    → has_key key (es ++ e ∷ []) ≡ true
has_key-append key [] e h = rw h
has_key-append key (x ∷ es) e h = ground (arith, has_key-append key es e h)

module _ (payload : Option Payload) (digest : String) (sent : ℕ) (claimed_at : Datetime)
    (s : Session) where
  abbrev new_row : FlashWebhookEvent
  new_row =
      new_event s.event_seq (event_name payload) sent (timestamp_of payload)
        (data_of payload).subscription_id (some (data_of payload)) (key_of payload digest)
        (some claimed_at)

  abbrev pub delivered : Option ℕ → RecordedDelivery
  delivered event_id = record {
    event_id = event_id;
    event = event_name payload;
    subscription_id = (data_of payload).subscription_id;
    external_ref = (data_of payload).external_ref;
    is_duplicate = not (is_some event_id);
    event_timestamp = timestamp_of payload;
  }

  abbrev with_inbox : List FlashWebhookEvent → Session
  with_inbox events =
      let db = record s.db { events = events } in
      record s { db = db; saved = db; event_seq = suc s.event_seq }

  record_delivery_lem : record_delivery payload digest sent claimed_at s ≡ (
      if has_key (key_of payload digest) s.db.events
      then (ok (delivered none), with_inbox s.db.events)
      else (ok (delivered (some s.event_seq)), with_inbox (s.db.events ++ new_row ∷ [])))
  unfolding record_delivery insert_flash_webhook_event_on_db commit
  record_delivery_lem = elim (Bool-cases (has_key (key_of payload digest) s.db.events)) [
    | inl e ↦ rw e
    | inr e ↦ rw e
  ]

  appended-IsSound :
      InboxIsSound s
      → has_key (key_of payload digest) s.db.events ≡ false
      → InboxIsSound (with_inbox (s.db.events ++ new_row ∷ []))
  appended-IsSound sound is_new = record {
    ids_fresh = λ id h. rw (count-append (has_id id)) (ground (arith, sound.ids_fresh id));
    ids_unique = λ id.
        rw (count-append (has_id id)) (ground (arith, sound.ids_fresh id, sound.ids_unique id));
    keys_unique = λ key. rw (count-append (is_keyed key)) (keyed key);
  }
    where
      keyed :
          (key : String)
          → count (is_keyed key) s.db.events + (if is_keyed key new_row then 1 else 0) ≤ 1
      keyed key = elim (Bool-cases (str_eq (key_of payload digest) key)) [
        | inr e ↦ rw e (omega (arith, sound.keys_unique key))
        | inl e ↦
            let none_yet : count (is_keyed key) s.db.events ≡ 0 =
              subst (λ k. count (is_keyed k) s.db.events ≡ 0) ((eq_iff _ key).0 e)
                (unkeyed (key_of payload digest) s.db.events is_new) in
            rw e (omega (arith, none_yet))
      ]

  -- Recording a delivery keeps ids and dedupe keys unique, and the sequence ahead of every id.
  pub record-IsSound :
      InboxIsSound s → InboxIsSound (record_delivery payload digest sent claimed_at s).1
  record-IsSound sound =
      rw record_delivery_lem (elim (Bool-cases (has_key (key_of payload digest) s.db.events)) [
        | inl e ↦ rw e (record {
          ids_fresh = λ id h. sound.ids_fresh id (omega (arith, h));
          ids_unique = sound.ids_unique;
          keys_unique = sound.keys_unique;
        })
        | inr e ↦ rw e (appended-IsSound sound e)
      ])

  -- The row of a recorded delivery is there.
  pub record-has_key :
      has_key (key_of payload digest) (record_delivery payload digest sent claimed_at s).1.db.events
      ≡ true
  record-has_key =
      rw record_delivery_lem (elim (Bool-cases (has_key (key_of payload digest) s.db.events)) [
        | inl e ↦ rw e e
        | inr e ↦ rw e (
            has_key-append (key_of payload digest) s.db.events new_row
              (str_eq_refl (key_of payload digest)))
      ])

  record-saved :
      (record_delivery payload digest sent claimed_at s).1.saved
      ≡ (record_delivery payload digest sent claimed_at s).1.db
  record-saved =
      rw record_delivery_lem (elim (Bool-cases (has_key (key_of payload digest) s.db.events)) [
        | inl e ↦ rw e refl
        | inr e ↦ rw e refl
      ])

  pub record-known :
      has_key (key_of payload digest) s.db.events ≡ true
      → record_delivery payload digest sent claimed_at s
        ≡ (ok (delivered none), with_inbox s.db.events)
  record-known h = record_delivery_lem ∙ rw h

-- A retry of a recorded delivery, whenever it comes, finds its row: it is a duplicate, with no row
-- of its own, and the inbox stays as it was. Both are committed.
pub record_once :
    (payload : Option Payload) (digest : String) (sent again : ℕ) (claimed_at later : Datetime)
    (s : Session)
    → let first = record_delivery payload digest sent claimed_at s in
      let second = record_delivery payload digest again later first.1 in
      (second.0 ≡ ok (delivered payload digest sent claimed_at s none))
      × (second.1.db.events ≡ first.1.db.events)
      × (first.1.saved ≡ first.1.db)
      × (second.1.saved ≡ second.1.db)
record_once payload digest sent again claimed_at later s =
    let first = (record_delivery payload digest sent claimed_at s).1 in
    let known =
      record-known payload digest again later first
        (record-has_key payload digest sent claimed_at s) in
    (
      ap (λ o. o.0) known,
      ap (λ o. o.1.db.events) known,
      record-saved payload digest sent claimed_at s,
      record-saved payload digest again later first,
    )
