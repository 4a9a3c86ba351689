-- ===== src/Billing/Apply/Inbox.antt =====
-- `apply_entitlement` of app/services/billing_service.py does not touch the inbox of deliveries.
use brainstorm_server.Common.{
  String, Bool, ◌≡◌, refl, Option, none, some, List, present, Option-cases, inl, inr,
}
use brainstorm_server.Flash.{Datetime}
use brainstorm_server.Billing.Tables.{Db, FlashWebhookEvent}
use brainstorm_server.Billing.Repos.Subscriptions.{advance_marker}
use brainstorm_server.Billing.Session.{Session, Result}
use brainstorm_server.Billing.Environment.{Environment}
use brainstorm_server.Billing.Entitlement.{EntitlementOutcome}
use brainstorm_server.Billing.Apply.{apply_entitlement}
use brainstorm_server.Billing.Apply.Stages.{
  Run, declined, failed, recorded, apply-Run, apply_unreferenced,
}
use brainstorm_server.Billing.Apply.Writes.{grant_and_record_lem}

-- The inbox in the transaction and the committed one are this one.
abbrev pub HasInbox : List FlashWebhookEvent → Session → Type 0
HasInbox events s = (s.db.events ≡ events) × (s.saved.events ≡ events)

module _ (env : Environment) (events : List FlashWebhookEvent) (now : Datetime) (s : Session)
    (h : HasInbox events s) where
  Run-HasInbox :
      (pubkey : String) (allow yields : Bool) (o : Result EntitlementOutcome × Session)
      → Run env pubkey now s allow yields o
      → HasInbox events o.1
  Run-HasInbox pubkey allow yields o (declined n r u b e) = rw e h
  Run-HasInbox pubkey allow yields o (failed n f e) = rw e h
  Run-HasInbox pubkey allow yields o (recorded n sub plan v m e) =
      rw e (rw grant_and_record_lem (h.0, h.0))

  pub apply-HasInbox :
      (external_ref id : Option String) (yields allow : Bool)
      → HasInbox events (apply_entitlement env external_ref id yields allow now s).1
  apply-HasInbox external_ref id yields allow = elim (Option-cases (present external_ref)) [
    | inl e ↦ rw (apply_unreferenced env external_ref id yields allow now s e) h
    | inr (k, e) ↦
        Run-HasInbox k allow yields _ (apply-Run env external_ref id k yields allow now s e)
  ]

-- Nor does the marker of the newest event.
pub marker-events :
    (ref : Option String) (ts : Option Datetime) (db : Db)
    → (advance_marker ref ts db).events ≡ db.events
marker-events none ts db = refl
marker-events (some k) none db = refl
marker-events (some k) (some t) db = refl
