-- ===== src/Billing/Admin/Action.antt =====
-- A write to Flash for a subscriber, in `_act_on_subscription` of app/services/billing_service.py.
use brainstorm_server.Common.{
  ℕ, ◌≡◌, refl, sym, subst, ◌⊎◌, inl, inr, String, Bool, true, false, Option, none, some, present,
  Bool-cases, str_eq,
}
use brainstorm_server.Flash.{
  FlashSubscription, Datetime, Answer, answered, unavailable, credentials_refused, refused,
}
use brainstorm_server.Billing.Tables.{UserSubscription}
use brainstorm_server.Billing.Session.{
  Session, Fault, Result, ok, raise, flash_unavailable, flash_credential_error, flash_refused,
  http_exception, operational_error, other, continue, continue-pure, pure,
}
use brainstorm_server.Billing.Environment.{Environment, ask}
use brainstorm_server.Billing.Entitlement.{EntitlementOutcome}
use brainstorm_server.Billing.Repos.Subscriptions.{subscription_of}
use brainstorm_server.Billing.Repos.Nsec.{nsec_of}
use brainstorm_server.Billing.Apply.{apply_entitlement}
use brainstorm_server.Billing.Apply.Safety.{Moved, apply-Moved, apply-all_or_nothing}
use brainstorm_server.Billing.Admin.{SubscriptionActionOutcome, reread, act_on_subscription}

-- The id of the subscription that we hold for the user.
abbrev pub held_id : Option UserSubscription → Option String
held_id none = none
held_id (some r) = present (some r.flash_subscription_id)

abbrev pub is_accepted : Answer → Bool
is_accepted (answered (some sub)) = true
is_accepted _ = false

-- Flash could not be read.
abbrev pub is_outage {ℓ} : {A : Type ℓ} → Result A → Bool
is_outage (raise (flash_unavailable why)) = true
is_outage (raise flash_credential_error) = true
is_outage _ = false

module _ (env : Environment) (now : Datetime) (pubkey : String) (write : ℕ → String → Answer)
    (s : Session) where
  abbrev pub acted : Result SubscriptionActionOutcome × Session
  acted = act_on_subscription env now pubkey (λ id. ask (λ n. write n id)) s

  abbrev pub after_write : Session
  after_write = (ask (λ n. write n "") s).1

  -- Flash took no write: it refused, could not be reached, or holds no such subscription.
  abbrev pub NotWritten : String → Type 0
  NotWritten id =
      (is_accepted (write s.asked id) ≡ false) × ((e : Fault) × (acted ≡ (raise e, after_write)))

  -- Flash took the write: no outage is reported, the user's policy is as it was or moved on what
  -- Flash reports after the write, and the change is whole and committed.
  abbrev pub Written : String → Type 0
  Written id =
      (is_accepted (write s.asked id) ≡ true)
      × (is_outage acted.0 ≡ false)
      × ((nsec_of acted.1.db pubkey ≡ nsec_of s.db pubkey)
          ⊎ Moved env pubkey false now s.db acted.1.db)
      × (((acted.1.db ≡ s.db) × (acted.1.saved ≡ s.saved)) ⊎ (acted.1.saved ≡ acted.1.db))

  abbrev reread_run : String → Result EntitlementOutcome × Session
  reread_run id = apply_entitlement env (some pubkey) (some id) false false now after_write

  reread-not_outage :
      (o : Result EntitlementOutcome) (f : String × Bool → SubscriptionActionOutcome) (t : Session)
      → is_outage (continue (reread o) (λ a. pure (f a)) t).0 ≡ false
  reread-not_outage (ok o) f t = refl
  reread-not_outage (raise (flash_unavailable why)) f t = refl
  reread-not_outage (raise flash_credential_error) f t = refl
  reread-not_outage (raise (flash_refused n)) f t = refl
  reread-not_outage (raise (http_exception n)) f t = refl
  reread-not_outage (raise operational_error) f t = refl
  reread-not_outage (raise (other why)) f t = refl

  module _ (r : UserSubscription) (known : subscription_of s.db pubkey ≡ some r)
      (usable : str_eq r.flash_subscription_id "" ≡ false) where
    abbrev id : String
    id = r.flash_subscription_id

    same_session :
        (sub : FlashSubscription)
        → write s.asked id ≡ answered (some sub)
        → acted.1 ≡ (reread_run id).1
    unfolding act_on_subscription
    same_session sub w =
        rw known (rw usable (rw w (continue-pure (reread (reread_run id).0) _ (reread_run id).1)))

    no_outage :
        (sub : FlashSubscription)
        → write s.asked id ≡ answered (some sub)
        → is_outage acted.0 ≡ false
    unfolding act_on_subscription
    no_outage sub w =
        rw known (rw usable (rw w (reread-not_outage (reread_run id).0 _ (reread_run id).1)))

    whole :
        present (some pubkey) ≡ some pubkey
        → (((reread_run id).1.db ≡ s.db) × ((reread_run id).1.saved ≡ s.saved))
          ⊎ ((reread_run id).1.saved ≡ (reread_run id).1.db)
    whole named =
        elim (apply-all_or_nothing env (some pubkey) (some id) pubkey false false now after_write
          named) [ inl (d, db, saved) ↦ inl (db, saved) | inr (d, same) ↦ inr same ]

    answered_lem :
        present (some pubkey) ≡ some pubkey
        → (a : Answer) → write s.asked id ≡ a
        → NotWritten id ⊎ Written id
    unfolding act_on_subscription
    answered_lem named (unavailable why) w =
        inl (rw w refl, (flash_unavailable why, rw known (rw usable (rw w refl))))
    answered_lem named credentials_refused w =
        inl (rw w refl, (flash_credential_error, rw known (rw usable (rw w refl))))
    answered_lem named (refused status) w =
        inl (rw w refl, (flash_refused status, rw known (rw usable (rw w refl))))
    answered_lem named (answered none) w =
        inl (rw w refl, (http_exception 404, rw known (rw usable (rw w refl))))
    answered_lem named (answered (some sub)) w = inr (
      rw w refl,
      no_outage sub w,
      subst
          (λ t. (nsec_of t.db pubkey ≡ nsec_of s.db pubkey) ⊎ Moved env pubkey false now s.db t.db)
          (sym (same_session sub w))
          (apply-Moved env (some pubkey) (some id) pubkey false false now after_write named),
      subst (λ t. ((t.db ≡ s.db) × (t.saved ≡ s.saved)) ⊎ (t.saved ≡ t.db))
          (sym (same_session sub w)) (whole named),
    )

  split_on :
      present (some pubkey) ≡ some pubkey
      → (held : Option UserSubscription) → subscription_of s.db pubkey ≡ held
      → ((held_id held ≡ none) × (acted ≡ (raise (http_exception 404), s)))
        ⊎ ((id : String) × (held_id held ≡ some id) × (NotWritten id ⊎ Written id))
  unfolding act_on_subscription
  split_on named none known = inl (refl, rw known refl)
  split_on named (some r) known = elim (Bool-cases (str_eq r.flash_subscription_id "")) [
    | inl e ↦ inl (rw e refl, rw known (rw e refl))
    | inr e ↦ inr (
      r.flash_subscription_id,
      rw e refl,
      answered_lem r known e named (write s.asked r.flash_subscription_id) refl,
    )
  ]

  -- For a user with a name: an action on a user for whom no subscription is held answers 404 and asks
  -- Flash nothing. Where Flash does not take the write, it raises and changes nothing. Where
  -- Flash takes it, an outage in the re-read is not raised, the user's policy is as it was or moved on
  -- Flash's word, and either nothing has changed or all is committed.
  pub act_on_subscription_lem :
      present (some pubkey) ≡ some pubkey
      → ((held_id (subscription_of s.db pubkey) ≡ none) × (acted ≡ (raise (http_exception 404), s)))
        ⊎ ((id : String) × (held_id (subscription_of s.db pubkey) ≡ some id)
            × (NotWritten id ⊎ Written id))
  act_on_subscription_lem named = split_on named (subscription_of s.db pubkey) refl
