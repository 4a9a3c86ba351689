-- ===== src/Billing/Unresolved/Attribution.antt =====
-- What attributing a signup does, in `attribute_unresolved_subscription` of
-- app/services/billing_service.py.
use brainstorm_server.Common.{
  ◌≡◌, refl, ◌⊎◌, inl, inr, String, Bool, true, false, Option, none, some, List, Bool-cases,
  is_some,
}
use brainstorm_server.Table.Where.{count, count-update}
use brainstorm_server.Flash.{Datetime}
use brainstorm_server.Billing.Tables.{FlashWebhookEvent, UserSubscription}
use brainstorm_server.Billing.Session.{
  Session, Fault, Result, ok, raise, continue, http_exception, commit,
}
use brainstorm_server.Billing.Environment.{Environment}
use brainstorm_server.Billing.Entitlement.{EntitlementReason, EntitlementOutcome, is_settled}
use brainstorm_server.Billing.Repos.Events.{is_open_for, settled, settle_unresolved_events_on_db}
use brainstorm_server.Billing.Repos.Subscriptions.{subscription_of, first_with_flash_id}
use brainstorm_server.Billing.Apply.Inbox.{HasInbox, apply-HasInbox}
use brainstorm_server.Billing.Unresolved.{
  ResolutionOutcome, held_by_another, require_settled, attribute_grant, settle_attributed,
  attribute_unresolved_subscription,
}
use brainstorm_server.Billing.Unresolved.Settled.{settled-not_open}

module _ (env : Environment) (now : Datetime) (id pubkey acting : String)
    (events : List FlashWebhookEvent) where
  -- A check of the outcome touches nothing.
  checked-HasInbox :
      (r : Result EntitlementOutcome) (t : Session)
      → HasInbox events t
      → HasInbox events (continue r require_settled t).1
  checked-HasInbox (raise e) t h = h
  checked-HasInbox (ok x) t h = elim (Bool-cases (is_settled x.reason)) [
    | inl e ↦ rw e h
    | inr e ↦ rw e h
  ]

  grant-HasInbox :
      (holder : Option UserSubscription) (s : Session)
      → HasInbox events s
      → HasInbox events (attribute_grant env now holder id pubkey s).1
  unfolding attribute_grant
  grant-HasInbox (some r) s h = h
  grant-HasInbox none s h = elim (Bool-cases (is_some (subscription_of s.db pubkey))) [
    | inl e ↦ rw e h
    | inr e ↦ rw e (
        checked-HasInbox _ _ (apply-HasInbox env events now s h (some pubkey) (some id) false true))
  ]

  -- How an attribution ends.
  abbrev pub Ends : Result ResolutionOutcome × Session → Type 0
  Ends o =
      (((outcome : ResolutionOutcome) × (o.0 ≡ ok outcome))
        × (count (is_open_for id false) o.1.db.events ≡ 0)
        × (o.1.saved ≡ o.1.db))
      ⊎ (((e : Fault) × (o.0 ≡ raise e)) × HasInbox events o.1)

  abbrev pub run : Session → Result ResolutionOutcome × Session
  run s = attribute_unresolved_subscription env now id pubkey acting s

  settled-Ends :
      (r : Result (Bool × EntitlementReason)) (t : Session)
      → HasInbox events t
      → Ends (continue r (settle_attributed env now id pubkey acting) t)
  unfolding settle_attributed settle_unresolved_events_on_db commit
  settled-Ends (raise e) t h = inr ((e, refl), h)
  settled-Ends (ok (applied, reason)) t h = inl (
    (_, refl),
    count-update (is_open_for id false) (settled now "attributed" acting)
        (settled-not_open id false now "attributed" acting) t.db.events,
    refl,
  )

  -- From a committed inbox: attributing a subscription that another user holds is refused with 409
  -- and changes nothing. Otherwise it succeeds, leaves no delivery of the subscription open and
  -- commits; or it raises, and no event is settled, so that no signup is written off whose grant
  -- failed.
  pub attribute_lem :
      (s : Session)
      → HasInbox events s
      → ((held_by_another (first_with_flash_id id s.db.subscriptions) pubkey ≡ true)
          × (run s ≡ (raise (http_exception 409), s)))
        ⊎ ((held_by_another (first_with_flash_id id s.db.subscriptions) pubkey ≡ false)
            × Ends (run s))
  unfolding attribute_unresolved_subscription
  attribute_lem s h =
      let holder = first_with_flash_id id s.db.subscriptions in
      elim (Bool-cases (held_by_another holder pubkey)) [
        | inl e ↦ inl (e, rw e)
        | inr e ↦ inr (
          e,
          rw e (
              settled-Ends (attribute_grant env now holder id pubkey s).0
                (attribute_grant env now holder id pubkey s).1 (grant-HasInbox holder s h)),
        )
      ]
