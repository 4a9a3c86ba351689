-- ===== src/Billing/Apply/Writes.antt =====
-- What `_grant_and_record` of app/services/billing_service.py writes, row by row.
use brainstorm_server.Common.{
  ℕ, String, Bool, true, false, ◌≡◌, refl, ◌∙◌, Option, none, some, List, arith, str_eq, eq_iff,
  Option-cases, inl, inr, if◌then◌else◌, str_eq_refl,
}
use mathlib.Core.Option
use brainstorm_server.Table.{find, modify, upsert, find-modify, find-upsert, find-key}
use brainstorm_server.Flash.{Datetime, FlashSubscription}
use brainstorm_server.Billing.Tables.{Db, BrainstormNsec, BillingPlan, UserSubscription}
use brainstorm_server.Billing.Session.{Session, ok, commit}
use brainstorm_server.Billing.Entitlement.{Resolution}
use brainstorm_server.Billing.Repos.Nsec.{
  nsec_key, nsec_of, new_nsec, assign, blocked_of, source_of,
}
use brainstorm_server.Billing.Repos.Subscriptions.{subscription_key, subscription_of, synced_row}
use brainstorm_server.Billing.Apply.{resolution_for, write_assignment, grant_and_record}

abbrev pub row_or_new : String → Option BrainstormNsec → BrainstormNsec
row_or_new pubkey none = new_nsec pubkey
row_or_new pubkey (some r) = r

-- The row that a resolution leaves, of the row that it finds.
abbrev pub assigned_row :
    String → Bool → Option ℕ → Option String → Option BrainstormNsec → Option BrainstormNsec
assigned_row pubkey false scheduling_id source row = row
assigned_row pubkey true scheduling_id none row = row
assigned_row pubkey true scheduling_id (some source) row =
    some (assign scheduling_id source (row_or_new pubkey row))

abbrev pub assigned :
    String → Bool → Option ℕ → Option String → List BrainstormNsec → List BrainstormNsec
assigned pubkey false scheduling_id source rows = rows
assigned pubkey true scheduling_id none rows = rows
assigned pubkey true scheduling_id (some source) rows =
    modify nsec_key pubkey (assign scheduling_id source)
      (upsert nsec_key (new_nsec pubkey) (λ r. r) rows)

pub find-assigned :
    (pubkey k : String) (write : Bool) (scheduling_id : Option ℕ) (source : Option String)
    (rows : List BrainstormNsec)
    → find nsec_key k (assigned pubkey write scheduling_id source rows) ≡ (
        if str_eq pubkey k
        then assigned_row pubkey write scheduling_id source (find nsec_key pubkey rows)
        else find nsec_key k rows)
find-assigned pubkey k false scheduling_id source rows = ground (arith, eq_iff pubkey k)
find-assigned pubkey k true scheduling_id none rows = ground (arith, eq_iff pubkey k)
find-assigned pubkey k true scheduling_id (some source) rows =
    rw (find-modify nsec_key pubkey k (assign scheduling_id source) (λ r. refl)) (
      rw (find-upsert nsec_key (new_nsec pubkey) (λ r. r) k (λ r. refl))
        (assigned_cases (find nsec_key pubkey rows)))
  where
    assigned_cases :
        (o : Option BrainstormNsec)
        → (if str_eq pubkey k
            then Option.map (assign scheduling_id source) (
                if str_eq pubkey k
                then some (Option.get_or (Option.map (λ r. r) o) (new_nsec pubkey))
                else find nsec_key k rows)
            else (if str_eq pubkey k
                then some (Option.get_or (Option.map (λ r. r) o) (new_nsec pubkey))
                else find nsec_key k rows))
          ≡ (if str_eq pubkey k
              then some (assign scheduling_id source (row_or_new pubkey o))
              else find nsec_key k rows)
    assigned_cases o = ground arith

write_assignment_lem :
    (pubkey : String) (write : Bool) (scheduling_id : Option ℕ) (source : Option String)
    (s : Session)
    → write_assignment pubkey write scheduling_id source s ≡ (
      ok tt,
      record s {
        db = record s.db { nsecs = assigned pubkey write scheduling_id source s.db.nsecs };
      },
    )
write_assignment_lem pubkey false scheduling_id source s = refl
write_assignment_lem pubkey true scheduling_id none s = refl
write_assignment_lem pubkey true scheduling_id (some source) s = refl

module _ (pubkey : String) (sub : FlashSubscription) (plan : BillingPlan) (now : Datetime) where
  -- What is decided in a database.
  abbrev pub resolved_in : Option UserSubscription → Db → Resolution
  resolved_in existing db =
      resolution_for sub plan now (blocked_of (nsec_of db pubkey)) (source_of (nsec_of db pubkey))
        existing

  -- The database with the assignment and the record of a resolution.
  abbrev pub written : Resolution → Db → Db
  written r db = record db {
    nsecs = assigned pubkey r.write_policy r.scheduling_id r.source db.nsecs;
    subscriptions =
        upsert subscription_key (synced_row pubkey sub plan.id r.granted_scheduling_id now none)
          (λ row. synced_row row.pubkey sub plan.id r.granted_scheduling_id now row.last_event_at)
          db.subscriptions;
  }

  -- One transaction: both writes are made, then committed, whatever was decided.
  pub grant_and_record_lem :
      (existing : Option UserSubscription) (s : Session)
      → grant_and_record pubkey sub plan now existing s ≡ (
          let r = resolved_in existing s.db in
          let db = written r s.db in
          (
            ok (record { applied = r.write_policy; reason = r.reason }),
            record s { db = db; saved = db },
          ))
  unfolding grant_and_record commit
  grant_and_record_lem existing s = rw write_assignment_lem

  pub nsec_of-written :
      (r : Resolution) (db : Db) (k : String)
      → nsec_of (written r db) k ≡ (
          if str_eq pubkey k
          then assigned_row pubkey r.write_policy r.scheduling_id r.source (nsec_of db pubkey)
          else nsec_of db k)
  nsec_of-written r db k = find-assigned pubkey k r.write_policy r.scheduling_id r.source db.nsecs

  abbrev pub marker_of : Option UserSubscription → Option Datetime
  marker_of none = none
  marker_of (some r) = r.last_event_at

  pub subscription_of-written :
      (r : Resolution) (db : Db) (k : String)
      → subscription_of (written r db) k ≡ (
          if str_eq pubkey k
          then some (
              synced_row pubkey sub plan.id r.granted_scheduling_id now
                (marker_of (subscription_of db pubkey)))
          else subscription_of db k)
  subscription_of-written r db k =
      rw
        (find-upsert subscription_key
          (synced_row pubkey sub plan.id r.granted_scheduling_id now none)
          (λ row. synced_row row.pubkey sub plan.id r.granted_scheduling_id now row.last_event_at) k
          (λ row. refl))
        (elim (Option-cases (subscription_of db pubkey)) [
          | inl e ↦ rw e
          | inr (row, e) ↦ rw (e, find-key subscription_key pubkey db.subscriptions row e)
        ])

  pub nsec_of-written_self :
      (r : Resolution) (db : Db)
      → nsec_of (written r db) pubkey
        ≡ assigned_row pubkey r.write_policy r.scheduling_id r.source (nsec_of db pubkey)
  nsec_of-written_self r db = nsec_of-written r db pubkey ∙ rw (str_eq_refl pubkey)

  pub subscription_of-written_self :
      (r : Resolution) (db : Db)
      → subscription_of (written r db) pubkey
        ≡ some (
            synced_row pubkey sub plan.id r.granted_scheduling_id now
              (marker_of (subscription_of db pubkey)))
  subscription_of-written_self r db = subscription_of-written r db pubkey ∙ rw (str_eq_refl pubkey)
