-- ===== src/Billing/Fallback/Endings.antt =====
-- What `apply_payload_fallback` of app/services/billing_service.py may change.
use brainstorm_server.Common.{
  String, Bool, true, false, not, ◌&&◌, ◌≡◌, refl, Option, none, some, List, Bool-cases, inl, inr,
  str_eq, present, is_some,
}
use brainstorm_server.Billing.Tables.{UserSubscription, FlashWebhookEvent}
use brainstorm_server.Billing.Session.{Session, Result, ok, commit}
use brainstorm_server.Billing.Environment.{Environment}
use brainstorm_server.Billing.Entitlement.{resolve_entitlement, is_admin_held}
use brainstorm_server.Billing.Repos.Nsec.{nsec_of, source_of}
use brainstorm_server.Billing.Repos.Subscriptions.{subscription_of}
use brainstorm_server.Billing.Fallback.{
  fallback_status, revoke_grant, fall_back, apply_payload_fallback, apply_status,
}

-- It returned, and the events are these, in the transaction and committed.
abbrev pub Keeps : List FlashWebhookEvent → Result Bool × Session → Type 0
Keeps events o = (b : Bool) × (o.0 ≡ ok b) × (o.1.db.events ≡ events) × (o.1.saved.events ≡ events)

module _ (env : Environment) (events : List FlashWebhookEvent) (s : Session)
    (in_db : s.db.events ≡ events) (in_saved : s.saved.events ≡ events) where
  apply_status-Keeps :
      (pubkey status : String) (o : Option UserSubscription)
      → Keeps events (apply_status pubkey status o s)
  unfolding revoke_grant resolve_entitlement commit
  apply_status-Keeps pubkey status none = (false, refl, in_db, in_saved)
  apply_status-Keeps pubkey status (some r) = elim (Bool-cases (str_eq status "expired")) [
    | inr e ↦ rw e (true, refl, in_db, in_db)
    | inl e ↦ elim (Bool-cases (is_admin_held (source_of (nsec_of s.db pubkey)))) [
      | inl a ↦ rw e (rw a (true, refl, in_db, in_db))
      | inr a ↦ rw e (rw a (true, refl, in_db, in_db))
    ]
  ]

  fall_back-Keeps : (status ref : Option String) → Keeps events (fall_back env status ref s)
  unfolding fall_back
  fall_back-Keeps none ref = (false, refl, in_db, in_saved)
  fall_back-Keeps (some status) none = (false, refl, in_db, in_saved)
  fall_back-Keeps (some status) (some pubkey) =
      elim (Bool-cases (is_some (nsec_of s.db pubkey) && not (env.held pubkey))) [
        | inl e ↦ rw e (apply_status-Keeps pubkey status (subscription_of s.db pubkey))
        | inr e ↦ rw e (false, refl, in_db, in_saved)
      ]

  -- The fallback always returns, and leaves the inbox as it is.
  pub fallback-Keeps :
      (event : String) (ref : Option String) → Keeps events (apply_payload_fallback env event ref s)
  unfolding apply_payload_fallback
  fallback-Keeps event ref = fall_back-Keeps (fallback_status event) (present ref)
