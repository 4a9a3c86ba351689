-- ===== src/Billing/Apply/Safety.antt =====
-- What a run of `apply_entitlement` of app/services/billing_service.py can change, and on whose
-- word.
use brainstorm_server.Common.{
  ℕ, String, Bool, true, false, ◌≡◌, ◌≢◌, refl, ap, ◌∙◌, ◌⊎◌, inl, inr, Option, none, some, present,
  eq_iff, str_eq-ne, if◌then◌else◌,
}
use brainstorm_server.Flash.{Datetime, FlashSubscription}
use brainstorm_server.Billing.Tables.{
  Db, BrainstormNsec, BillingPlan, default_source, billing_source, admin_source,
}
use brainstorm_server.Billing.Session.{Session, Result, ok, raise}
use brainstorm_server.Billing.Environment.{Environment}
use brainstorm_server.Billing.Entitlement.{
  EntitlementDecision, grant, hold, revoke, EntitlementOutcome, Resolution, is_settled,
  is_admin_held, resolve_entitlement, decide_entitlement,
}
use brainstorm_server.Billing.Entitlement.Resolve.{resolve-settles}
use brainstorm_server.Billing.Repos.Nsec.{nsec_of, blocked_of, source_of}
use brainstorm_server.Billing.Repos.Subscriptions.{subscription_of}
use brainstorm_server.Billing.Repos.Plans.{first_plan, plan_matches}
use brainstorm_server.Billing.Apply.{granted_of, resolution_for, apply_entitlement}
use brainstorm_server.Billing.Apply.Stages.{Vouched, Run, declined, failed, recorded, apply-Run}
use brainstorm_server.Billing.Apply.Writes.{
  resolved_in, written, grant_and_record_lem, nsec_of-written, subscription_of-written,
  nsec_of-written_self, subscription_of-written_self,
}

-- The call returned, and with an outcome that decides the event.
abbrev pub is_decided : Result EntitlementOutcome → Bool
is_decided (ok o) = is_settled o.reason
is_decided (raise e) = false

abbrev pub scheduling_of : Option BrainstormNsec → Option ℕ
scheduling_of none = none
scheduling_of (some r) = r.scheduling_id

-- Flash's status for a subscription, as a decision at a time.
abbrev pub decision_for : FlashSubscription → Datetime → EntitlementDecision
decision_for sub now =
    decide_entitlement sub.status sub.cancel_effective_date sub.current_period_end now sub.policy

-- What can move a user's policy: a grant of the mapped plan, or a return to the default policy.
pub data Moved (env : Environment) (pubkey : String) (allow : Bool) (now : Datetime)
    (before after : Db) : Type 0 where
  granted_to :
      (sub : FlashSubscription) (plan : BillingPlan)
      → Vouched env pubkey allow (subscription_of before pubkey) sub
      → first_plan (plan_matches sub.service_id sub.plan_id) before.plans ≡ some plan
      → decision_for sub now ≡ grant
      → blocked_of (nsec_of before pubkey) ≡ false
      → scheduling_of (nsec_of after pubkey) ≡ some plan.scheduling_id
      → granted_of (subscription_of after pubkey) ≡ some plan.scheduling_id
      → Moved env pubkey allow now before after
  revoked_from :
      (sub : FlashSubscription)
      → Vouched env pubkey allow (subscription_of before pubkey) sub
      → decision_for sub now ≡ revoke
      → source_of (nsec_of before pubkey) ≢ admin_source
      → scheduling_of (nsec_of after pubkey) ≡ none
      → source_of (nsec_of after pubkey) ≡ default_source
      → granted_of (subscription_of after pubkey) ≡ none
      → Moved env pubkey allow now before after

-- The three shapes of a resolution.
Shapes : EntitlementDecision → Bool → Bool → ℕ → Option ℕ → Resolution → Type 0
Shapes d b a plan existing r =
    (r.write_policy ≡ false)
    ⊎ (((d ≡ grant)
          × (b ≡ false)
          × (r.write_policy ≡ true)
          × (r.scheduling_id ≡ some plan)
          × (r.source ≡ some (if a then admin_source else billing_source))
          × (r.granted_scheduling_id ≡ some plan))
        ⊎ ((d ≡ revoke)
            × (a ≡ false)
            × (r.write_policy ≡ true)
            × (r.scheduling_id ≡ none)
            × (r.source ≡ some default_source)
            × (r.granted_scheduling_id ≡ none)))

resolve-Shapes :
    (d : EntitlementDecision) (b a : Bool) (plan : ℕ) (existing : Option ℕ)
    → Shapes d b a plan existing (resolve_entitlement d b a plan existing)
unfolding Shapes resolve_entitlement
resolve-Shapes grant true a plan existing = inl refl
resolve-Shapes grant false a plan existing = inr (inl (refl, refl, refl, refl, refl, refl))
resolve-Shapes revoke b true plan existing = inl refl
resolve-Shapes revoke b false plan existing = inr (inr (refl, refl, refl, refl, refl, refl))
resolve-Shapes hold b a plan existing = inl refl

module _ (env : Environment) (pubkey : String) (allow : Bool) (now : Datetime) (db : Db)
    (sub : FlashSubscription) (plan : BillingPlan)
    (v : Vouched env pubkey allow (subscription_of db pubkey) sub)
    (m : first_plan (plan_matches sub.service_id sub.plan_id) db.plans ≡ some plan)
    (r : Resolution) where
  abbrev after : Db
  after = written pubkey sub plan now r db

  -- A resolution of one of the three shapes leaves the row alone, or moves it as it should.
  written-Moved :
      Shapes
        (decision_for sub now)
        (blocked_of (nsec_of db pubkey))
        (is_admin_held (source_of (nsec_of db pubkey)))
        plan.scheduling_id
        (granted_of (subscription_of db pubkey))
        r
      → (nsec_of after pubkey ≡ nsec_of db pubkey) ⊎ Moved env pubkey allow now db after
  unfolding Shapes
  written-Moved (inl w) = inl (nsec_of-written_self pubkey sub plan now r db ∙ rw w)
  written-Moved (inr (inl (d, b, w, sched, src, g))) = inr (
      granted_to sub plan v m d b
        (ap scheduling_of (nsec_of-written_self pubkey sub plan now r db) ∙ rw (w, src, sched))
        (ap granted_of (subscription_of-written_self pubkey sub plan now r db) ∙ g))
  written-Moved (inr (inr (d, a, w, sched, src, g))) = inr (
      revoked_from sub v d (λ e. cc ((eq_iff (source_of (nsec_of db pubkey)) admin_source).1 e, a))
        (ap scheduling_of (nsec_of-written_self pubkey sub plan now r db) ∙ rw (w, src, sched))
        (ap source_of (nsec_of-written_self pubkey sub plan now r db) ∙ rw (w, src))
        (ap granted_of (subscription_of-written_self pubkey sub plan now r db) ∙ g))

  -- Nor does it take the source `admin` from a row.
  written-keeps_admin :
      Shapes
        (decision_for sub now)
        (blocked_of (nsec_of db pubkey))
        (is_admin_held (source_of (nsec_of db pubkey)))
        plan.scheduling_id
        (granted_of (subscription_of db pubkey))
        r
      → source_of (nsec_of db pubkey) ≡ admin_source
      → source_of (nsec_of after pubkey) ≡ admin_source
  unfolding Shapes
  written-keeps_admin (inl w) e =
      ap source_of (nsec_of-written_self pubkey sub plan now r db) ∙ rw w e
  written-keeps_admin (inr (inl (d, b, w, sched, src, g))) e =
      ap source_of (nsec_of-written_self pubkey sub plan now r db) ∙ rw (w, src, e)
  written-keeps_admin (inr (inr (d, a, w, sched, src, g))) e =
      cc ((eq_iff (source_of (nsec_of db pubkey)) admin_source).1 e, a)

module _ (env : Environment) (external_ref id : Option String) (pubkey : String)
    (yields allow : Bool) (now : Datetime) (s : Session)
    (named : present external_ref ≡ some pubkey) where
  abbrev pub result : Result EntitlementOutcome × Session
  result = apply_entitlement env external_ref id yields allow now s

  -- All or nothing, for a call with a reference: either nothing was decided (Flash could not be read, or nothing settles the
  -- event) and neither the transaction nor the committed data has changed, or the decision is
  -- taken and everything that was written is committed.
  pub apply-all_or_nothing :
      ((is_decided result.0 ≡ false) × (result.1.db ≡ s.db) × (result.1.saved ≡ s.saved))
      ⊎ ((is_decided result.0 ≡ true) × (result.1.saved ≡ result.1.db))
  unfolding resolution_for
  apply-all_or_nothing =
      lemma result (apply-Run env external_ref id pubkey yields allow now s named)
    where
      lemma :
          (o : Result EntitlementOutcome × Session)
          → Run env pubkey now s allow yields o
          → ((is_decided o.0 ≡ false) × (o.1.db ≡ s.db) × (o.1.saved ≡ s.saved))
            ⊎ ((is_decided o.0 ≡ true) × (o.1.saved ≡ o.1.db))
      lemma o (declined n r u b e) = rw e (inl (u, refl, refl))
      lemma o (failed n f e) = rw e (inl (refl, refl, refl))
      lemma o (recorded n sub plan v m e) =
          rw e (rw grant_and_record_lem (inr (resolve-settles _ _ _ _ _, refl)))

  -- A call with a reference touches nobody else's row or record, nor any plan, policy or event.
  pub apply-other_users :
      (k : String)
      → k ≢ pubkey
      → (nsec_of result.1.db k ≡ nsec_of s.db k)
        × (subscription_of result.1.db k ≡ subscription_of s.db k)
        × (result.1.db.plans ≡ s.db.plans)
        × (result.1.db.schedulings ≡ s.db.schedulings)
        × (result.1.db.events ≡ s.db.events)
  apply-other_users k h =
      lemma result (apply-Run env external_ref id pubkey yields allow now s named)
    where
      lemma :
          (o : Result EntitlementOutcome × Session)
          → Run env pubkey now s allow yields o
          → (nsec_of o.1.db k ≡ nsec_of s.db k)
            × (subscription_of o.1.db k ≡ subscription_of s.db k)
            × (o.1.db.plans ≡ s.db.plans)
            × (o.1.db.schedulings ≡ s.db.schedulings)
            × (o.1.db.events ≡ s.db.events)
      lemma o (declined n r u b e) = rw e (refl, refl, refl, refl, refl)
      lemma o (failed n f e) = rw e (refl, refl, refl, refl, refl)
      lemma o (recorded n sub plan v m e) = rw e (
          rw grant_and_record_lem (
            nsec_of-written pubkey sub plan now
                  (resolved_in pubkey sub plan now (subscription_of s.db pubkey) s.db) s.db k
                ∙ rw (str_eq-ne pubkey k h),
            subscription_of-written pubkey sub plan now
                  (resolved_in pubkey sub plan now (subscription_of s.db pubkey) s.db) s.db k
                ∙ rw (str_eq-ne pubkey k h),
            refl,
            refl,
            refl,
          ))

  -- A call with a reference moves a policy only on Flash's own word: unless the user's row is as it was, Flash vouched for a
  -- subscription of theirs whose status says to grant, the plan is mapped, the user is not blocked
  -- and holds the plan's policy now; or its status says to revoke, no admin holds the user, and they
  -- are back on the default policy. The record of what was granted says the same.
  pub apply-Moved :
      (nsec_of result.1.db pubkey ≡ nsec_of s.db pubkey)
      ⊎ Moved env pubkey allow now s.db result.1.db
  unfolding resolution_for
  apply-Moved = lemma result (apply-Run env external_ref id pubkey yields allow now s named)
    where
      lemma :
          (o : Result EntitlementOutcome × Session)
          → Run env pubkey now s allow yields o
          → (nsec_of o.1.db pubkey ≡ nsec_of s.db pubkey) ⊎ Moved env pubkey allow now s.db o.1.db
      lemma o (declined n r u b e) = rw e (inl refl)
      lemma o (failed n f e) = rw e (inl refl)
      lemma o (recorded n sub plan v m e) = rw e (
          rw grant_and_record_lem
            (written-Moved env pubkey allow now s.db sub plan v m _ (resolve-Shapes _ _ _ _ _)))

  -- A user whom an admin holds is still held by the admin after a call with their reference.
  pub apply-keeps_admin :
      source_of (nsec_of s.db pubkey) ≡ admin_source
      → source_of (nsec_of result.1.db pubkey) ≡ admin_source
  unfolding resolution_for
  apply-keeps_admin h = lemma result (apply-Run env external_ref id pubkey yields allow now s named)
    where
      lemma :
          (o : Result EntitlementOutcome × Session)
          → Run env pubkey now s allow yields o
          → source_of (nsec_of o.1.db pubkey) ≡ admin_source
      lemma o (declined n r u b e) = rw e h
      lemma o (failed n f e) = rw e h
      lemma o (recorded n sub plan v m e) = rw e (
          rw grant_and_record_lem (
            written-keeps_admin env pubkey allow now s.db sub plan v m _ (resolve-Shapes _ _ _ _ _)
              h))
