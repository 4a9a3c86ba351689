-- ===== src/Billing/Fallback/Revocation.antt =====
-- Whose policy `apply_payload_fallback` of app/services/billing_service.py may move.
use brainstorm_server.Common.{
  String, Bool, true, false, arith, opt_str_eq, ◌∙◌, not, ◌&&◌, ◌≡◌, refl, sym, ap, subst, ◌⊎◌, inl,
  inr, Option, none, some, Bool-cases, str_eq, eq_iff, present, is_some,
}
use brainstorm_server.Billing.Tables.{BrainstormNsec, UserSubscription, default_source}
use brainstorm_server.Billing.Session.{Session, commit}
use brainstorm_server.Billing.Environment.{Environment}
use brainstorm_server.Billing.Entitlement.{resolve_entitlement, is_admin_held}
use brainstorm_server.Billing.Repos.Nsec.{nsec_of, source_of}
use brainstorm_server.Billing.Repos.Subscriptions.{subscription_of}
use brainstorm_server.Billing.Apply.Safety.{scheduling_of}
use brainstorm_server.Billing.Unbilled.{unbilled, nsec_of-unbilled, nsec_of-unbilled_ne}
use brainstorm_server.Billing.Fallback.{
  fallback_status, revoke_grant, fall_back, apply_payload_fallback, apply_status,
}

-- A user's row stays, or what is written names them, and no admin holds them, and their policy is taken
-- back.
abbrev Revoked :
    String → Option String → String → Option BrainstormNsec → Option BrainstormNsec → Type 0
Revoked status ref k before now =
    (now ≡ before)
    ⊎ ((status ≡ "expired")
        × (ref ≡ some k)
        × (is_admin_held (source_of before) ≡ false)
        × (scheduling_of now ≡ none)
        × (source_of now ≡ default_source))

-- A user's row stays, or an expiry that named them takes their policy back.
abbrev pub TakenBack :
    String → Option String → String → Option BrainstormNsec → Option BrainstormNsec → Type 0
TakenBack event ref k before now =
    (now ≡ before)
    ⊎ ((event ≡ "subscription.expired")
        × (ref ≡ some k)
        × (is_admin_held (source_of before) ≡ false)
        × (scheduling_of now ≡ none)
        × (source_of now ≡ default_source))

module _ (env : Environment) (k : String) (s : Session) where
  unbilled-Revoked :
      (pubkey status : String)
      → str_eq status "expired" ≡ true
      → is_admin_held (source_of (nsec_of s.db pubkey)) ≡ false
      → Revoked status (some pubkey) k (nsec_of s.db k) (nsec_of (unbilled pubkey s.db) k)
  unbilled-Revoked pubkey status e a = elim (Bool-cases (str_eq pubkey k)) [
    | inr n ↦ inl (nsec_of-unbilled_ne pubkey k s.db (λ q. cc ((eq_iff pubkey k).1 (sym q), n)))
    | inl y ↦
        let same : pubkey ≡ k = (eq_iff pubkey k).0 y in
        let row = nsec_of-unbilled k s.db in
        subst (λ u. Revoked status (some pubkey) k (nsec_of s.db k) (nsec_of (unbilled u s.db) k))
          (sym same)
          (inr (
            (eq_iff status "expired").0 e,
            ap some same,
            subst (λ u. is_admin_held (source_of (nsec_of s.db u)) ≡ false) same a,
            ap scheduling_of row,
            ap source_of row,
          ))
  ]

  status-Revoked :
      (pubkey status : String) (o : Option UserSubscription)
      → Revoked status
          (some pubkey)
          k
          (nsec_of s.db k)
          (nsec_of (apply_status pubkey status o s).1.db k)
  unfolding revoke_grant resolve_entitlement commit
  status-Revoked pubkey status none = inl refl
  status-Revoked pubkey status (some r) = elim (Bool-cases (str_eq status "expired")) [
    | inr e ↦ rw e (inl refl)
    | inl e ↦ elim (Bool-cases (is_admin_held (source_of (nsec_of s.db pubkey)))) [
      | inl a ↦ rw e (rw a (inl refl))
      | inr a ↦ rw e (rw a (unbilled-Revoked pubkey status e a))
    ]
  ]

  -- No other event than an expiry has the status that takes a policy back.
  fallback_status_expired :
      (event : String) → fallback_status event ≡ some "expired" → event ≡ "subscription.expired"
  unfolding fallback_status
  fallback_status_expired event h = elim (Bool-cases (str_eq event "subscription.expired")) [
    | inl e ↦ (eq_iff event "subscription.expired").0 e
    | inr e ↦ elim (Bool-cases (str_eq event "subscription.canceled")) [
      | inl f ↦ absurd (ground (arith, ap expires (rw (e, f) at h)))
      | inr f ↦ elim (Bool-cases (str_eq event "subscription.past_due")) [
        | inl g ↦ absurd (ground (arith, ap expires (rw (e, f, g) at h)))
        | inr g ↦ absurd (ground (arith, ap expires (rw (e, f, g) at h)))
      ]
    ]
  ]
    where
      expires : Option String → Bool
      expires o = opt_str_eq o (some "expired")

  event-TakenBack :
      (event status : String) (ref : Option String) (before now : Option BrainstormNsec)
      → fallback_status event ≡ some status
      → Revoked status ref k before now
      → TakenBack event ref k before now
  event-TakenBack event status ref before now h (inl same) = inl same
  event-TakenBack event status ref before now h (inr (e, named, free, policy, source)) =
      inr (fallback_status_expired event (h ∙ ap some e), named, free, policy, source)

  fall_back-TakenBack :
      (event : String) (status ref : Option String)
      → fallback_status event ≡ status
      → TakenBack event ref k (nsec_of s.db k) (nsec_of (fall_back env status ref s).1.db k)
  unfolding fall_back
  fall_back-TakenBack event none ref h = inl refl
  fall_back-TakenBack event (some status) none h = inl refl
  fall_back-TakenBack event (some status) (some pubkey) h =
      elim (Bool-cases (is_some (nsec_of s.db pubkey) && not (env.held pubkey))) [
        | inl e ↦ rw e (
            event-TakenBack event status (some pubkey) _ _ h
              (status-Revoked pubkey status (subscription_of s.db pubkey)))
        | inr e ↦ rw e (inl refl)
      ]

  -- Where Flash cannot be asked, a payload never grants: each user's row stays as it was, or the event is an
  -- expiry, `subscription.expired`, and names them, no admin holds them, and they are back on the default
  -- policy.
  pub fallback-TakenBack :
      (event : String) (ref : Option String)
      → TakenBack event
          (present ref)
          k
          (nsec_of s.db k)
          (nsec_of (apply_payload_fallback env event ref s).1.db k)
  unfolding apply_payload_fallback
  fallback-TakenBack event ref =
      fall_back-TakenBack event (fallback_status event) (present ref) refl
