-- ===== src/Billing/Repos/Subscriptions.antt =====
-- app/repos/user_subscription_repo.py: the row of one subscriber, read and written by its pubkey.
use brainstorm_server.Common.{
  ℕ, String, ◌&&◌, Option, none, some, List, [], ◌∷◌, opt_str_eq, is_some, present, str_eq, ◌==◌,
  if◌then◌else◌,
}
use brainstorm_server.Common.Tri.{keeps, or3, sql_lt, is_null}
use brainstorm_server.Table.{find, modify, upsert}
use brainstorm_server.Table.Where.{count}
use brainstorm_server.Flash.{Datetime, FlashSubscription}
use brainstorm_server.Billing.Tables.{Db, UserSubscription}
use brainstorm_server.Billing.Session.{Exec, reads, writes}

abbrev pub subscription_key : UserSubscription → String
subscription_key r = r.pubkey

abbrev pub subscription_of : Db → String → Option UserSubscription
subscription_of db pubkey = find subscription_key pubkey db.subscriptions

abbrev pub get_user_subscription_on_db : String → Exec (Option UserSubscription)
get_user_subscription_on_db pubkey = reads λ db. subscription_of db pubkey

abbrev pub first_with_flash_id : String → List UserSubscription → Option UserSubscription
first_with_flash_id id [] = none
first_with_flash_id id (r ∷ rs) =
    if str_eq r.flash_subscription_id id then some r else first_with_flash_id id rs

abbrev pub get_user_subscription_by_flash_id_on_db : String → Exec (Option UserSubscription)
get_user_subscription_by_flash_id_on_db id = reads λ db. first_with_flash_id id db.subscriptions

-- The columns that a sync leaves alone (`last_event_at`) keep the value of the row that is there.
abbrev pub synced_row :
    String → FlashSubscription → ℕ → Option ℕ → Datetime → Option Datetime → UserSubscription
synced_row pubkey subscription billing_plan_id granted_scheduling_id now last_event_at = record {
  pubkey = pubkey;
  flash_subscription_id = subscription.id;
  flash_subscriber_id = subscription.subscriber_id;
  billing_plan_id = billing_plan_id;
  granted_scheduling_id = granted_scheduling_id;
  flash_status = subscription.status;
  current_period_start = subscription.current_period_start;
  current_period_end = subscription.current_period_end;
  next_billing_date = subscription.next_billing_date;
  trial_end_date = subscription.trial_end_date;
  cancel_effective_date = subscription.cancel_effective_date;
  portal_url = subscription.portal_url;
  pricing_amount_minor = elim subscription.pricing [
    | none ↦ none
    | some pricing ↦ pricing.amount_minor
  ];
  pricing_currency = elim subscription.pricing [ none ↦ none | some pricing ↦ pricing.currency ];
  pricing_billing_interval = elim subscription.pricing [
    | none ↦ none
    | some pricing ↦ pricing.billing_interval
  ];
  last_event_at = last_event_at;
  last_synced_at = some now;
  last_sync_error = none;
  sync_error_since = none;
}

abbrev pub upsert_user_subscription_on_db :
    String → FlashSubscription → ℕ → Option ℕ → Datetime → Exec (Unit {0})
upsert_user_subscription_on_db pubkey subscription billing_plan_id granted_scheduling_id now =
    writes λ db. record db {
      subscriptions =
          upsert subscription_key
            (synced_row pubkey subscription billing_plan_id granted_scheduling_id now none)
            (λ r.
              synced_row r.pubkey subscription billing_plan_id granted_scheduling_id now
                r.last_event_at)
            db.subscriptions;
    }

abbrev pub count_subscriptions_for_plan_on_db : ℕ → Exec ℕ
count_subscriptions_for_plan_on_db billing_plan_id =
    reads λ db. count (λ r. r.billing_plan_id == billing_plan_id) db.subscriptions

abbrev pub forget_grant : UserSubscription → UserSubscription
forget_grant r = record r { granted_scheduling_id = none }

abbrev pub clear_granted_scheduling_on_db : String → Exec (Unit {0})
clear_granted_scheduling_on_db pubkey =
    writes λ db. record db {
      subscriptions = modify subscription_key pubkey forget_grant db.subscriptions;
    }

abbrev pub with_status : String → Option Datetime → UserSubscription → UserSubscription
with_status status none r = record r { flash_status = status }
with_status status (some date) r = record r {
  flash_status = status;
  cancel_effective_date = some date;
}

abbrev pub update_flash_status_on_db : String → String → Option Datetime → Exec (Unit {0})
update_flash_status_on_db pubkey status cancel_effective_date = writes λ db. record db {
  subscriptions =
      modify subscription_key pubkey (with_status status cancel_effective_date) db.subscriptions;
}

-- The WHERE clause of the marker's UPDATE: the stored event is missing or older.
unfoldable pub advance_event : Datetime → UserSubscription → UserSubscription
advance_event at r =
    if keeps (or3 (is_null r.last_event_at) (sql_lt r.last_event_at at))
    then record r { last_event_at = some at }
    else r

abbrev pub advance_marker : Option String → Option Datetime → Db → Db
advance_marker none at db = db
advance_marker (some pubkey) none db = db
advance_marker (some pubkey) (some at) db = record db {
  subscriptions = modify subscription_key pubkey (advance_event at) db.subscriptions;
}

abbrev pub update_last_event_at_on_db : Option String → Option Datetime → Exec (Unit {0})
update_last_event_at_on_db pubkey event_timestamp =
    writes (advance_marker (present pubkey) event_timestamp)

-- Only a change of reason restarts the clock of the failure.
unfoldable pub failed_sync : String → Datetime → UserSubscription → UserSubscription
failed_sync reason now r = record r {
  last_sync_error = some reason;
  last_synced_at = some now;
  sync_error_since =
      if opt_str_eq r.last_sync_error (some reason) && is_some r.sync_error_since
      then r.sync_error_since
      else some now;
}

abbrev pub record_sync_failure_on_db : String → String → Datetime → Exec (Unit {0})
record_sync_failure_on_db pubkey reason now = writes λ db. record db {
  subscriptions = modify subscription_key pubkey (failed_sync reason now) db.subscriptions;
}
