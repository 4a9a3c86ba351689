-- ===== src/Billing/Sync/Reconcile/Progress.antt =====
-- Why the bounded batches of `reconcile_subscriptions` of app/services/billing_sync_service.py do
-- not starve anyone: every round moves the read clock that the next selection orders by.
use brainstorm_server.Common.{
  ℕ, String, true, false, not, ◌&&◌, ◌≡◌, refl, ap, subst, ◌∙◌, none, some, arith, present,
  Option-cases, inl, inr, str_eq_refl,
}
use brainstorm_server.Table.{find-modify}
use brainstorm_server.Flash.{Datetime}
use brainstorm_server.Billing.Tables.{UserSubscription}
use brainstorm_server.Billing.Session.{
  Session, Fault, Result, ok, raise, commit, rollback, flash_unavailable, flash_credential_error,
  flash_refused, http_exception, operational_error, other,
}
use brainstorm_server.Billing.Environment.{Environment}
use brainstorm_server.Billing.Entitlement.{
  EntitlementReason, EntitlementOutcome, is_settled, reason_value, no_reference,
}
use brainstorm_server.Billing.Entitlement.Resolve.{resolve-settles}
use brainstorm_server.Billing.Repos.Subscriptions.{subscription_key, subscription_of, failed_sync}
use brainstorm_server.Billing.Apply.{apply_entitlement, resolution_for, refuse}
use brainstorm_server.Billing.Apply.Stages.{
  is_busy, asked_to, Run, declined, failed, recorded, apply-Run, apply_unreferenced,
}
use brainstorm_server.Billing.Apply.Writes.{
  grant_and_record_lem, subscription_of-written_self, resolved_in,
}
use brainstorm_server.Billing.Sync.Reconcile.{
  Round, is_unsettled, on_outcome, note_failure, reconcile_row,
}

-- The read clock of a user's record stands at a time.
abbrev pub IsReadAt : String → Datetime → Session → Type 0
IsReadAt k now s =
    (r : UserSubscription) × (subscription_of s.db k ≡ some r) × (r.last_synced_at ≡ some now)

-- Noting a failure moves the clock of a record that is there.
noted-IsReadAt :
    (k reason : String) (now : Datetime) (s : Session) (r : UserSubscription)
    → subscription_of s.db k ≡ some r
    → IsReadAt k now (note_failure k reason now s).1
unfolding failed_sync commit
noted-IsReadAt k reason now s r known = (
  failed_sync reason now r,
  find-modify subscription_key k k (failed_sync reason now) (λ r. refl) s.db.subscriptions
      ∙ rw (str_eq_refl k, known),
  refl,
)

-- What settles nothing, and is not a refusal to wait, is one of the reasons that the loop notes.
pub unsettled :
    (r : EntitlementReason)
    → is_settled r ≡ false
    → (is_busy r && not false) ≡ false
    → is_unsettled r ≡ true
unsettled r h b = ground arith

pub settled_stays : (r : EntitlementReason) → is_settled r ≡ true → is_unsettled r ≡ false
settled_stays r h = ground arith

pub present-eq : (p k : String) → present (some p) ≡ some k → k ≡ p
present-eq p k e = ground arith

module _ (env : Environment) (now : Datetime) (row r : UserSubscription) (s : Session)
    (known : subscription_of s.db row.pubkey ≡ some r) where
  -- A rollback returns to what is committed, where the record is too.
  fault-IsReadAt :
      (e : Fault) (n : ℕ) (round : Round)
      → s.saved ≡ s.db
      → (on_outcome row.pubkey now (raise e) (asked_to n s)).0 ≡ ok round
      → IsReadAt row.pubkey now (on_outcome row.pubkey now (raise e) (asked_to n s)).1
  unfolding rollback commit
  fault-IsReadAt (flash_unavailable why) n round clean h =
      noted-IsReadAt row.pubkey why now (record (asked_to n s) { db = s.saved }) r (rw clean known)
  fault-IsReadAt flash_credential_error n round clean h =
      noted-IsReadAt row.pubkey "credentials refused" now (record (asked_to n s) { db = s.saved }) r
        (rw clean known)
  fault-IsReadAt (flash_refused status) n round clean h = cc
  fault-IsReadAt (http_exception status) n round clean h = cc
  fault-IsReadAt operational_error n round clean h = cc
  fault-IsReadAt (other why) n round clean h = cc

  declined-IsReadAt :
      (reason : EntitlementReason) (n : ℕ)
      → is_unsettled reason ≡ true
      → IsReadAt row.pubkey now (on_outcome row.pubkey now (ok (refuse reason)) (asked_to n s)).1
  unfolding commit
  declined-IsReadAt reason n h =
      rw h (noted-IsReadAt row.pubkey (reason_value reason) now (asked_to n s) r known)

  Run-IsReadAt :
      (round : Round) (o : Result EntitlementOutcome × Session)
      → s.saved ≡ s.db
      → Run env row.pubkey now s false false o
      → (on_outcome row.pubkey now o.0 o.1).0 ≡ ok round
      → IsReadAt row.pubkey now (on_outcome row.pubkey now o.0 o.1).1
  unfolding resolution_for
  Run-IsReadAt round o clean (declined n reason u b e) h =
      rw e (declined-IsReadAt reason n (unsettled reason u b))
  Run-IsReadAt round o clean (failed n f e) h = rw e (
      fault-IsReadAt f n round clean
        (subst (λ o. (on_outcome row.pubkey now o.0 o.1).0 ≡ ok round) e h))
  Run-IsReadAt round o clean (recorded n sub plan v m e) h = rw e (
      rw grant_and_record_lem (
        rw (settled_stays _ (resolve-settles _ _ _ _ _)) (
          _,
          subscription_of-written_self row.pubkey sub plan now
              (resolved_in row.pubkey sub plan now (subscription_of s.db row.pubkey) s.db) s.db,
          refl,
        )))

  -- For a subscriber with a record, and with nothing uncommitted: every round that raises nothing
  -- has moved the read clock of the record to now, whether Flash answered, did not, refused the
  -- credentials, or answered in a way that settles nothing.
  pub round-IsReadAt :
      (round : Round)
      → s.saved ≡ s.db
      → (reconcile_row env now row s).0 ≡ ok round
      → IsReadAt row.pubkey now (reconcile_row env now row s).1
  unfolding reconcile_row
  round-IsReadAt round clean h = elim (Option-cases (present (some row.pubkey))) [
    | inl e ↦
        rw (apply_unreferenced env (some row.pubkey) none false false now s e)
          (declined-IsReadAt no_reference s.asked refl)
    | inr (k, e) ↦
        Run-IsReadAt round (apply_entitlement env (some row.pubkey) none false false now s) clean
          (apply-Run env (some row.pubkey) none row.pubkey false false now s
            (e ∙ ap some (present-eq row.pubkey k e)))
          h
  ]
