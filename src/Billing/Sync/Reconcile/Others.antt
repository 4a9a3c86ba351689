-- ===== src/Billing/Sync/Reconcile/Others.antt =====
-- What a round of `reconcile_subscriptions` of app/services/billing_sync_service.py leaves the others.
use brainstorm_server.Common.{
  ℕ, String, true, false, ◌≡◌, ◌≢◌, refl, ap, subst, ◌∙◌, inl, inr, none, some, present,
  Option-cases, str_eq-ne,
}
use brainstorm_server.Table.{find-modify}
use brainstorm_server.Flash.{Datetime}
use brainstorm_server.Billing.Tables.{UserSubscription}
use brainstorm_server.Billing.Session.{
  Session, Fault, Result, ok, raise, commit, rollback, flash_unavailable, flash_credential_error,
  flash_refused, http_exception, operational_error, other,
}
use brainstorm_server.Billing.Environment.{Environment}
use brainstorm_server.Billing.Entitlement.{
  EntitlementReason, EntitlementOutcome, reason_value, no_reference,
}
use brainstorm_server.Billing.Entitlement.Resolve.{resolve-settles}
use brainstorm_server.Billing.Repos.Subscriptions.{subscription_key, subscription_of, failed_sync}
use brainstorm_server.Billing.Apply.{apply_entitlement, resolution_for, refuse}
use brainstorm_server.Billing.Apply.Stages.{
  asked_to, Run, declined, failed, recorded, apply-Run, apply_unreferenced,
}
use brainstorm_server.Billing.Apply.Writes.{
  grant_and_record_lem, subscription_of-written, resolved_in,
}
use brainstorm_server.Billing.Sync.Reconcile.{
  Round, is_unsettled, on_outcome, note_failure, reconcile_row,
}
use brainstorm_server.Billing.Sync.Reconcile.Progress.{unsettled, settled_stays, present-eq}

-- Another user's record after a round, and what is committed.
abbrev pub Apart : String → String → Session → Session → Type 0
Apart pubkey k s t =
    (k ≢ pubkey → subscription_of t.db k ≡ subscription_of s.db k) × (t.saved ≡ t.db)

noted-Apart :
    (pubkey reason k : String) (now : Datetime) (s : Session)
    → Apart pubkey k s (note_failure pubkey reason now s).1
unfolding failed_sync commit
noted-Apart pubkey reason k now s = (
  (λ h.
      find-modify subscription_key pubkey k (failed_sync reason now) (λ r. refl) s.db.subscriptions
      ∙ rw (str_eq-ne pubkey k h) refl),
  refl,
)

module _ (env : Environment) (now : Datetime) (row : UserSubscription) (k : String) (s : Session)
    (clean : s.saved ≡ s.db) where
  fault-Apart :
      (e : Fault) (n : ℕ) (round : Round)
      → (on_outcome row.pubkey now (raise e) (asked_to n s)).0 ≡ ok round
      → Apart row.pubkey k s (on_outcome row.pubkey now (raise e) (asked_to n s)).1
  unfolding rollback commit
  fault-Apart (flash_unavailable why) n round h =
      let back = record (asked_to n s) { db = s.saved } in
      let (same, saved) = noted-Apart row.pubkey why k now back in
      ((λ h. same h ∙ ap (λ d. subscription_of d k) clean), saved)
  fault-Apart flash_credential_error n round h =
      let back = record (asked_to n s) { db = s.saved } in
      let (same, saved) = noted-Apart row.pubkey "credentials refused" k now back in
      ((λ h. same h ∙ ap (λ d. subscription_of d k) clean), saved)
  fault-Apart (flash_refused status) n round h = cc
  fault-Apart (http_exception status) n round h = cc
  fault-Apart operational_error n round h = cc
  fault-Apart (other why) n round h = cc

  declined-Apart :
      (reason : EntitlementReason) (n : ℕ)
      → is_unsettled reason ≡ true
      → Apart row.pubkey k s (on_outcome row.pubkey now (ok (refuse reason)) (asked_to n s)).1
  unfolding commit
  declined-Apart reason n h =
      rw h (noted-Apart row.pubkey (reason_value reason) k now (asked_to n s))

  Run-Apart :
      (round : Round) (o : Result EntitlementOutcome × Session)
      → Run env row.pubkey now s false false o
      → (on_outcome row.pubkey now o.0 o.1).0 ≡ ok round
      → Apart row.pubkey k s (on_outcome row.pubkey now o.0 o.1).1
  unfolding resolution_for
  Run-Apart round o (declined n reason u b e) h =
      rw e (declined-Apart reason n (unsettled reason u b))
  Run-Apart round o (failed n f e) h =
      rw e
        (fault-Apart f n round (subst (λ o. (on_outcome row.pubkey now o.0 o.1).0 ≡ ok round) e h))
  Run-Apart round o (recorded n sub plan v m e) h = rw e (
      rw grant_and_record_lem (
        rw (settled_stays _ (resolve-settles _ _ _ _ _)) (
          (λ h.
              subscription_of-written row.pubkey sub plan now
                (resolved_in row.pubkey sub plan now (subscription_of s.db row.pubkey) s.db) s.db k
              ∙ rw (str_eq-ne row.pubkey k h) refl),
          refl,
        )))

  pub round-Apart :
      (round : Round)
      → (reconcile_row env now row s).0 ≡ ok round
      → Apart row.pubkey k s (reconcile_row env now row s).1
  unfolding reconcile_row
  round-Apart round h = elim (Option-cases (present (some row.pubkey))) [
    | inl e ↦
        rw (apply_unreferenced env (some row.pubkey) none false false now s e)
          (declined-Apart no_reference s.asked refl)
    | inr (name, e) ↦
        Run-Apart round (apply_entitlement env (some row.pubkey) none false false now s)
          (apply-Run env (some row.pubkey) none row.pubkey false false now s
            (e ∙ ap some (present-eq row.pubkey name e)))
          h
  ]
