-- ===== src/Billing/Sync/Replay/Claim.antt =====
-- The claim of app/repos/flash_webhook_event_repo.py, which decides between two replicas that replay
-- one event.
use brainstorm_server.Common.{
  ℕ, ◌+◌, ◌≤◌, ◌<◌, ◌≡◌, refl, Bool, true, false, not, ◌==◌, List, [], ◌∷◌, Bool-cases, inl, inr,
  arith,
}
use brainstorm_server.Table.Where.{count, update, update-none}
use brainstorm_server.Billing.Tables.{FlashWebhookEvent}
use brainstorm_server.Billing.Session.{Session, ok}
use brainstorm_server.Billing.Repos.Events.{
  claim_webhook_event_on_db, is_claimable, claimed, claim_is_stale,
}

module _ (event_id now later stale_after : ℕ) (h : later < now + stale_after) where
  abbrev here : FlashWebhookEvent → Bool
  here e = e.id == event_id

  abbrev first_test : FlashWebhookEvent → Bool
  first_test = is_claimable event_id now stale_after

  abbrev second_test : FlashWebhookEvent → Bool
  second_test = is_claimable event_id later stale_after

  claimed_test : (e : FlashWebhookEvent) → second_test (claimed now e) ≡ false
  unfolding is_claimable claimed claim_is_stale
  claimed_test e = ground arith

  elsewhere :
      (e : FlashWebhookEvent) → here e ≡ false → (first_test e ≡ false) × (second_test e ≡ false)
  unfolding is_claimable
  elsewhere e n = rw n (refl, refl)

  at_home : (e : FlashWebhookEvent) → first_test e ≡ true → here e ≡ true
  unfolding is_claimable
  at_home e n = ground arith

  absent :
      (events : List FlashWebhookEvent)
      → count here events ≡ 0
      → (count first_test events ≡ 0)
        × (count second_test (update first_test (claimed now) events) ≡ 0)
  unfolding count update
  absent [] n = (refl, refl)
  absent (e ∷ es) n = elim (Bool-cases (here e)) [
    | inl y ↦ absurd (ground arith)
    | inr y ↦ rw (elsewhere e y).0 (rw (elsewhere e y).1 (absent es (ground arith)))
  ]

  -- After a claim that found its event, nothing can be claimed again.
  refused_after :
      (events : List FlashWebhookEvent)
      → count here events ≤ 1
      → 0 < count first_test events
      → count second_test (update first_test (claimed now) events) ≡ 0
  unfolding count update
  refused_after [] n f = refl
  refused_after (e ∷ es) n f = elim (Bool-cases (first_test e)) [
    | inl y ↦ rw y (rw (claimed_test e) (absent es (ground (arith, at_home e y))).1)
    | inr y ↦ elim (Bool-cases (here e)) [
      | inl w ↦ absurd (ground (arith, absent es))
      | inr w ↦ rw y (rw (elsewhere e w).1 (refused_after es (ground arith) (ground arith)))
    ]
  ]

-- Where no two events have the same id, one replica gets an event: once it is claimed, and as long as
-- the claim lasts, whoever asks for the same event is refused, and changes no event.
pub claim_once :
    (event_id now later stale_after : ℕ) (s : Session)
    → later < now + stale_after
    → count (λ e. e.id == event_id) s.db.events ≤ 1
    → (claim_webhook_event_on_db event_id now stale_after s).0 ≡ ok true
    → let first = claim_webhook_event_on_db event_id now stale_after s in
      let second = claim_webhook_event_on_db event_id later stale_after first.1 in
      (second.0 ≡ ok false) × (second.1.db.events ≡ first.1.db.events)
unfolding claim_webhook_event_on_db
claim_once event_id now later stale_after s h unique won =
    let none_left : count (is_claimable event_id later stale_after)
          (update (is_claimable event_id now stale_after) (claimed now) s.db.events)
        ≡ 0 =
      refused_after event_id now later stale_after h s.db.events unique (some_claimed _ won) in
    (rw none_left, update-none _ _ _ none_left)
  where
    some_claimed : (n : ℕ) → ok (not (n == 0)) ≡ ok true → 0 < n
    some_claimed n e = ground arith
