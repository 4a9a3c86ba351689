-- ===== src/Billing/Apply/Stages.antt =====
-- Every run of `apply_entitlement` of app/services/billing_service.py is one of three: it declines,
-- it raises, or it ends in `_grant_and_record` with a subscription that Flash vouches for. Up to
-- that point it writes nothing.
use brainstorm_server.Common.{
  ℕ, suc, String, Bool, true, false, ◌≡◌, refl, ap, ◌∙◌, ◌⊎◌, inl, inr, Option, none, some, present,
  str_eq, eq_iff, Bool-cases, Option-cases, is_some, not, ◌&&◌, arith,
}
use brainstorm_server.Flash.{
  Datetime, FlashSubscription, Answer, answered, unavailable, credentials_refused, refused,
}
use brainstorm_server.Billing.Tables.{BillingPlan, UserSubscription}
use brainstorm_server.Billing.Session.{
  Session, Fault, Result, ok, raise, continue, flash_unavailable, flash_credential_error,
  flash_refused,
}
use brainstorm_server.Billing.Environment.{
  Environment, fetch_subscription, fetch_with, ask, no_handle,
}
use brainstorm_server.Billing.Entitlement.{
  EntitlementReason, EntitlementOutcome, is_settled, no_reference, unknown_user, unknown_plan,
  unknown_subscription, reference_mismatch, busy,
}
use brainstorm_server.Billing.Repos.Nsec.{nsec_of}
use brainstorm_server.Billing.Repos.Subscriptions.{subscription_of}
use brainstorm_server.Billing.Repos.Plans.{first_plan, plan_matches}
use brainstorm_server.Billing.Apply.{
  refuse, grant_and_record, names_another_subscription, map_and_record, choose_current, current_or,
  check_ref, ask_stored, check_reference, look_up_stored, reconcile_locked, reconcile_user,
  apply_entitlement,
}

abbrev pub is_busy : EntitlementReason → Bool
is_busy busy = true
is_busy _ = false

-- The session after `n` requests to Flash, with nothing else changed.
abbrev pub asked_to : ℕ → Session → Session
asked_to n s = record s { asked = n }

-- Who may be granted a subscription that names nobody: whoever the caller decided on, or the user
-- on whose record its id stands.
abbrev pub MayBeUnreferenced : Bool → Option UserSubscription → Option String → Type 0
MayBeUnreferenced allow on_file id =
    (allow ≡ true)
    ⊎ ((r : UserSubscription) × (on_file ≡ some r) × (id ≡ some r.flash_subscription_id))

-- How Flash vouches that a subscription is this user's: it answered a lookup by their reference, or
-- the subscription that it answered carries their reference, or that one carries none and may.
pub data Vouched (env : Environment) (pubkey : String) (allow : Bool)
    (on_file : Option UserSubscription) (sub : FlashSubscription) : Type 0 where
  by_reference :
      (k : ℕ)
      → env.fetch k none (some pubkey) ≡ answered (some sub)
      → Vouched env pubkey allow on_file sub
  named :
      (k : ℕ) (id ref : Option String)
      → env.fetch k id ref ≡ answered (some sub)
      → present sub.ref ≡ some pubkey
      → Vouched env pubkey allow on_file sub
  unreferenced :
      (k : ℕ) (id ref : Option String)
      → env.fetch k id ref ≡ answered (some sub)
      → present sub.ref ≡ none
      → MayBeUnreferenced allow on_file id
      → Vouched env pubkey allow on_file sub

module _ (env : Environment) (pubkey : String) (now : Datetime) (s : Session) where
  pub data Run (allow yields : Bool) (o : Result EntitlementOutcome × Session) : Type 0 where
    declined :
        (n : ℕ) (r : EntitlementReason)
        → is_settled r ≡ false
        → (is_busy r && not yields) ≡ false
        → o ≡ (ok (refuse r), asked_to n s)
        → Run allow yields o
    failed : (n : ℕ) (e : Fault) → o ≡ (raise e, asked_to n s) → Run allow yields o
    recorded :
        (n : ℕ) (sub : FlashSubscription) (plan : BillingPlan)
        → Vouched env pubkey allow (subscription_of s.db pubkey) sub
        → first_plan (plan_matches sub.service_id sub.plan_id) s.db.plans ≡ some plan
        → o ≡ grant_and_record pubkey sub plan now (subscription_of s.db pubkey) (asked_to n s)
        → Run allow yields o

  -- A lookup counts its request and changes nothing else.
  data Asked (id ref : Option String) (n : ℕ) (o : Result (Option FlashSubscription) × Session)
      : Type 0 where
    answer :
        (found : Option FlashSubscription)
        → env.fetch n id ref ≡ answered found
        → o ≡ (ok found, asked_to (suc n) s)
        → Asked id ref n o
    error : (m : ℕ) (e : Fault) → o ≡ (raise e, asked_to m s) → Asked id ref n o

  ask-Asked :
      (id ref : Option String) (n : ℕ) (a : Answer)
      → env.fetch n id ref ≡ a
      → Asked id ref n (ask (λ k. env.fetch k id ref) (asked_to n s))
  ask-Asked id ref n (answered found) e = answer found e (rw e)
  ask-Asked id ref n (unavailable why) e = error (suc n) (flash_unavailable why) (rw e)
  ask-Asked id ref n credentials_refused e = error (suc n) flash_credential_error (rw e)
  ask-Asked id ref n (refused status) e = error (suc n) (flash_refused status) (rw e)

  fetch_with-Asked :
      (i r id ref : Option String) (n : ℕ)
      → Asked id ref n (fetch_with env i r id ref (asked_to n s))
  fetch_with-Asked none none id ref n = error n no_handle refl
  fetch_with-Asked (some i) r id ref n = ask-Asked id ref n _ refl
  fetch_with-Asked none (some r) id ref n = ask-Asked id ref n _ refl

  fetch-Asked :
      (id ref : Option String) (n : ℕ)
      → Asked id ref n (fetch_subscription env id ref (asked_to n s))
  unfolding fetch_subscription
  fetch-Asked id ref n = fetch_with-Asked (present id) (present ref) id ref n

  module _ (allow yields : Bool) where
    map-Run :
        (sub : FlashSubscription) (n : ℕ)
        → Vouched env pubkey allow (subscription_of s.db pubkey) sub
        → Run allow yields
            (map_and_record env pubkey now sub (subscription_of s.db pubkey) (asked_to n s))
    unfolding map_and_record
    map-Run sub n v =
        elim (Option-cases (first_plan (plan_matches sub.service_id sub.plan_id) s.db.plans)) [
          | inl e ↦ declined n unknown_plan refl refl (rw e)
          | inr (plan, e) ↦ recorded n sub plan v e (rw e)
        ]

    choose_then-Run :
        (sub : FlashSubscription) (n : ℕ)
        → Vouched env pubkey allow (subscription_of s.db pubkey) sub
        → (o : Result (Option FlashSubscription) × Session) → Asked none (some pubkey) n o
        → Run allow yields (
            continue o.0
              (λ current.
                map_and_record env pubkey now
                  (current_or env pubkey now current sub)
                  (subscription_of s.db pubkey))
              o.1)
    choose_then-Run sub n v o (answer none e h) = rw h (map-Run sub (suc n) v)
    choose_then-Run sub n v o (answer (some current) e h) =
        rw h (map-Run current (suc n) (by_reference n e))
    choose_then-Run sub n v o (error m e h) = rw h (failed m e refl)

    choose-Run :
        (sub : FlashSubscription) (n : ℕ)
        → Vouched env pubkey allow (subscription_of s.db pubkey) sub
        → Run allow yields (choose_current env pubkey now sub (asked_to n s))
    unfolding choose_current
    choose-Run sub n v =
        elim (Bool-cases (names_another_subscription (subscription_of s.db pubkey) sub)) [
          | inl e ↦ rw e (choose_then-Run sub n v _ (fetch-Asked none (some pubkey) n))
          | inr e ↦ rw e (map-Run sub n v)
        ]

    check_ref-Run :
        (sub : FlashSubscription) (named_ref : Option String) (lax : Bool) (n k : ℕ)
        (id ref : Option String)
        → present sub.ref ≡ named_ref
        → env.fetch k id ref ≡ answered (some sub)
        → (lax ≡ true → MayBeUnreferenced allow (subscription_of s.db pubkey) id)
        → Run allow yields (check_ref env pubkey now named_ref lax sub (asked_to n s))
    check_ref-Run sub none true n k id ref p e may =
        choose-Run sub n (unreferenced k id ref e p (may refl))
    check_ref-Run sub none false n k id ref p e may = declined n no_reference refl refl refl
    check_ref-Run sub (some r) lax n k id ref p e may = elim (Bool-cases (str_eq r pubkey)) [
      | inl q ↦ rw q (choose-Run sub n (named k id ref e (p ∙ ap some ((eq_iff r pubkey).0 q))))
      | inr q ↦ rw q (declined n reference_mismatch refl refl refl)
    ]

    check-Run :
        (found : Option FlashSubscription) (lax : Bool) (n k : ℕ) (id ref : Option String)
        → env.fetch k id ref ≡ answered found
        → (lax ≡ true → MayBeUnreferenced allow (subscription_of s.db pubkey) id)
        → Run allow yields (check_reference env pubkey now found lax (asked_to n s))
    unfolding check_reference
    check-Run none lax n k id ref e may = declined n unknown_subscription refl refl refl
    check-Run (some sub) lax n k id ref e may =
        check_ref-Run sub (present sub.ref) lax n k id ref refl e may

    stored_then-Run :
        (r : UserSubscription) (n : ℕ)
        → subscription_of s.db pubkey ≡ some r
        → (o : Result (Option FlashSubscription) × Session)
        → Asked (some r.flash_subscription_id) none n o
        → Run allow yields (continue o.0 (λ found. check_reference env pubkey now found true) o.1)
    stored_then-Run r n p o (answer found e h) = rw h (
        check-Run found true (suc n) n (some r.flash_subscription_id) none e
          (λ _. inr (r, p, refl)))
    stored_then-Run r n p o (error m e h) = rw h (failed m e refl)

    ask_stored-Run :
        (on_file : Option UserSubscription) (n k : ℕ) (id ref : Option String)
        → subscription_of s.db pubkey ≡ on_file
        → env.fetch k id ref ≡ answered none
        → Run allow yields (ask_stored env pubkey now on_file allow (asked_to n s))
    ask_stored-Run none n k id ref p e = check-Run none allow n k id ref e inl
    ask_stored-Run (some r) n k id ref p e =
        stored_then-Run r n p _ (fetch-Asked (some r.flash_subscription_id) none n)

    look_up-Run :
        (handle : Option String) (found : Option FlashSubscription) (n k : ℕ)
        (id ref : Option String)
        → env.fetch k id ref ≡ answered found
        → Run allow yields (look_up_stored env pubkey now handle found allow (asked_to n s))
    unfolding look_up_stored
    look_up-Run (some h) found n k id ref e = check-Run found allow n k id ref e inl
    look_up-Run none (some sub) n k id ref e = check-Run (some sub) allow n k id ref e inl
    look_up-Run none none n k id ref e = ask_stored-Run _ n k id ref refl e

    locked_then-Run :
        (handle id ref : Option String) (n : ℕ)
        → (o : Result (Option FlashSubscription) × Session) → Asked id ref n o
        → Run allow yields
            (continue o.0 (λ found. look_up_stored env pubkey now handle found allow) o.1)
    locked_then-Run handle id ref n o (answer found e h) =
        rw h (look_up-Run handle found (suc n) n id ref e)
    locked_then-Run handle id ref n o (error m e h) = rw h (failed m e refl)

    locked-Run :
        (id : Option String) → Run allow yields (reconcile_locked env pubkey now id allow s)
    unfolding reconcile_locked
    locked-Run id = locked_then-Run (present id) id _ s.asked _ (fetch-Asked id _ s.asked)

    -- Every run for a user declines, raises, or records.
    pub reconcile-Run :
        (id : Option String) → Run allow yields (reconcile_user env pubkey now id yields allow s)
    unfolding reconcile_user
    reconcile-Run id = elim (Bool-cases (is_some (nsec_of s.db pubkey))) [
      | inl e ↦ elim (Bool-cases (yields && env.held pubkey)) [
        | inl b ↦ rw e (rw (e, b) (declined s.asked busy refl (ground arith) refl))
        | inr b ↦ rw e (rw (e, b) (locked-Run id))
      ]
      | inr e ↦ rw e (declined s.asked unknown_user refl refl refl)
    ]

-- Every run of `apply_entitlement` with a reference declines, raises, or records.
pub apply-Run :
    (env : Environment) (external_ref id : Option String) (pubkey : String) (yields allow : Bool)
    (now : Datetime) (s : Session)
    → present external_ref ≡ some pubkey
    → Run env pubkey now s allow yields (apply_entitlement env external_ref id yields allow now s)
unfolding apply_entitlement
apply-Run env external_ref id pubkey yields allow now s e =
    rw e (reconcile-Run env pubkey now s allow yields id)

-- Without a reference it declines before it reads anything.
pub apply_unreferenced :
    (env : Environment) (external_ref id : Option String) (yields allow : Bool) (now : Datetime)
    (s : Session)
    → present external_ref ≡ none
    → apply_entitlement env external_ref id yields allow now s ≡ (ok (refuse no_reference), s)
unfolding apply_entitlement
apply_unreferenced env external_ref id yields allow now s e = rw e
