-- ===== src/Billing/Tests.antt =====
-- The theorems of the billing modules at concrete inputs.
use brainstorm_server.Common.{
  ◌↔◌, take, ◌+◌, String, true, false, ◌≡◌, ◌≢◌, refl, ◌⊎◌, none, some, [], ◌∷◌, arith, is_some,
}
use brainstorm_server.Table.{find}
use brainstorm_server.Table.Where.{All, count, select}
use brainstorm_server.Flash.{unknown_lifecycle_policy}
use brainstorm_server.Billing.Tables.{
  BrainstormNsec, UserSubscription, FlashWebhookEvent, EventData, default_source, billing_source,
}
use brainstorm_server.Billing.Session.{Session, Fault, ok, raise, commit, rollback}
use brainstorm_server.Billing.Environment.{fetch_subscription}
use brainstorm_server.Billing.Entitlement.{revoke, decide_entitlement}
use brainstorm_server.Billing.Entitlement.Decide.{IsOver, decide_iff}
use brainstorm_server.Billing.Repos.Subscriptions.{synced_row, subscription_of}
use brainstorm_server.Billing.Repos.Nsec.{nsec_of, source_of, blocked_of, assign}
use brainstorm_server.Billing.Repos.Events.{claim_webhook_event_on_db, is_claimable, claim_is_stale}
use brainstorm_server.Billing.Fixtures.{pro, session, database, alice, subscription_for, outage}
use brainstorm_server.Billing.Apply.{
  apply_entitlement, reconcile_user, reconcile_locked, granted_of,
}
use brainstorm_server.Billing.Apply.Safety.{is_decided}
use brainstorm_server.Billing.Apply.Inbox.{HasInbox}
use brainstorm_server.Billing.Admin.{
  set_billing_block, update_billing_plan, new_service_id, new_plan_id, is_reidentified,
}
use brainstorm_server.Billing.Admin.Plans.{MayRename, Changed, update_billing_plan_lem}
use brainstorm_server.Billing.Repos.Plans.{PlanChange}
use brainstorm_server.Billing.Admin.Block.{block_lem, block_outcome, with_block}
use brainstorm_server.Billing.Sync.Lapse.{revoke_lapsed_entitlements}
use brainstorm_server.Billing.Sync.Lapse.Sweep.{Outcome, lapsed_for, lapse_lem}
use brainstorm_server.Billing.Sync.Reconcile.{reconcile_row, reconcile_rows}
use brainstorm_server.Billing.Sync.Reconcile.Rounds.{IsRead}
use brainstorm_server.Billing.Sync.Reconcile.Batch.{reconcile-IsRead}
use brainstorm_server.Billing.Sync.Replay.{replay_event}
use brainstorm_server.Billing.Sync.Replay.Claim.{claim_once}
use brainstorm_server.Billing.Sync.Replay.Outcomes.{Ended, claims, taken, with_claim, replay-Ended}

-- Alice's paid period ended at 100, and she has cancelled.
abbrev cancelled_row : UserSubscription
cancelled_row = synced_row "alice" (subscription_for "alice" "canceled") 1 (some 2) 5 none

abbrev paying_alice : BrainstormNsec
paying_alice = record alice { scheduling_id = some 2; scheduling_source = billing_source }

abbrev paying : Session
paying =
    let db = record database { nsecs = paying_alice ∷ []; subscriptions = cancelled_row ∷ [] } in
    record session { db = db; saved = db }

lapse_lem_example :
    Outcome "alice"
      (lapsed_for 200 "alice"
        (select (λ r. is_some r.granted_scheduling_id) paying.db.subscriptions))
      paying
      (revoke_lapsed_entitlements 200 paying).1
lapse_lem_example = lapse_lem 200 "alice" paying

-- Alice's record, read at each of two rounds.
reconcile-IsRead_example :
    All
      (λ row.
        IsRead
          (λ n. 300 + n)
          row.pubkey
          (reconcile_rows outage (λ n. 300 + n) (cancelled_row ∷ cancelled_row ∷ []) paying).1)
      (take 2 (cancelled_row ∷ cancelled_row ∷ []))
unfolding find reconcile_rows reconcile_row apply_entitlement reconcile_user reconcile_locked
    fetch_subscription rollback commit
reconcile-IsRead_example =
    reconcile-IsRead outage (cancelled_row ∷ cancelled_row ∷ []) (λ n. 300 + n) paying
      (record { reconciled = 0; failed = 2 }) refl
      ((cancelled_row, refl), ((cancelled_row, refl), tt)) refl

abbrev target : EventData
target = record {
  external_ref = some "alice";
  subscription_id = some "sub_1";
  service_id = some "svc";
  plan_id = some "pro";
}

-- A delivery whose claim ran out.
abbrev dropped : FlashWebhookEvent
dropped = record {
  id = 7;
  event = "subscription.expired";
  event_timestamp = some 100;
  delivery_timestamp = 1;
  subscription_id = some "sub_1";
  payload = some target;
  processing_started_at = some 100;
  processed_at = none;
  attempts = 1;
  process_error = none;
  resolved_by = none;
  resolution = none;
  dedupe_key = "sub_1:subscription.expired:expiredAt=1";
}

-- The same, naming nobody.
abbrev nameless : FlashWebhookEvent
nameless = record dropped { payload = some (record target { external_ref = none }) }

abbrev inbox : FlashWebhookEvent → Session
inbox e = record paying { db = record paying.db { events = e ∷ [] } }

claim_once_example :
    ((claim_webhook_event_on_db 7 205 50 (claim_webhook_event_on_db 7 200 50 (inbox dropped)).1).0
      ≡ ok false)
    × ((claim_webhook_event_on_db 7 205 50
          (claim_webhook_event_on_db 7 200 50 (inbox dropped)).1).1.db.events
        ≡ (claim_webhook_event_on_db 7 200 50 (inbox dropped)).1.db.events)
unfolding count claim_webhook_event_on_db is_claimable claim_is_stale
claim_once_example = claim_once 7 200 205 50 (inbox dropped) (omega arith) (omega arith) refl

abbrev repr : Fault → String
repr e = "Exception()"

replay-Ended_example :
    ((claims 200 dropped 50 (inbox dropped) ≡ true)
      × Ended 200 dropped
          (is_decided
            (apply_entitlement outage target.external_ref target.subscription_id true false 201
              (with_claim 200 dropped 50 (inbox dropped))).0)
          (taken 200 dropped 50 (dropped ∷ []))
          (replay_event outage repr 200 50 201 dropped (inbox dropped)))
    ⊎ ((claims 200 dropped 50 (inbox dropped) ≡ false)
        × ((replay_event outage repr 200 50 201 dropped (inbox dropped)).0 ≡ ok 0)
        × HasInbox (dropped ∷ []) (replay_event outage repr 200 50 201 dropped (inbox dropped)).1)
replay-Ended_example = replay-Ended 200 dropped outage repr 201 50 target (inbox dropped) refl

decide_iff_example :
    (decide_entitlement "canceled" none (some 100) 200 unknown_lifecycle_policy ≡ revoke)
    ↔ IsOver "canceled" (some 100) 200 unknown_lifecycle_policy
decide_iff_example = decide_iff "canceled" none (some 100) 200 unknown_lifecycle_policy

block_lem_example :
    let run = set_billing_block outage "alice" true paying in
    (blocked_of (nsec_of run.1.db "alice") ≡ true)
    × (((source_of (some paying_alice) ≡ billing_source)
          × (run.0 ≡ ok (block_outcome true))
          × (nsec_of run.1.db "alice" ≡ some (assign none default_source (with_block paying_alice)))
          × (granted_of (subscription_of run.1.db "alice") ≡ none))
        ⊎ ((source_of (some paying_alice) ≢ billing_source)
            × (run.0 ≡ ok (block_outcome false))
            × (nsec_of run.1.db "alice" ≡ some (with_block paying_alice))
            × (run.1.db.subscriptions ≡ paying.db.subscriptions)))
    × (run.1.saved ≡ run.1.db)
unfolding find
block_lem_example = block_lem outage "alice" paying paying_alice refl

-- A typo in the Flash id of a plan that somebody bought.
abbrev correction : PlanChange
correction = record {
  flash_service_id = none;
  flash_plan_id = some "pro_2";
  scheduling_id = none;
  is_active = none;
}

update_billing_plan_lem_example :
    ((e : Fault) × (update_billing_plan 1 correction paying ≡ (raise e, paying)))
    ⊎ (MayRename paying 1
          (new_service_id correction pro)
          (new_plan_id correction pro)
          (is_reidentified correction pro)
        × Changed 1 correction pro paying refl (update_billing_plan 1 correction paying))
update_billing_plan_lem_example = update_billing_plan_lem 1 correction pro paying refl
