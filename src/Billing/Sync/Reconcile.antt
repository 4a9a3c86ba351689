-- ===== src/Billing/Sync/Reconcile.antt =====
-- `reconcile_subscriptions` of app/services/billing_sync_service.py: ask Flash again about the
-- subscribers whom no event has settled. `clock` is the time at each round, `at` the time of the
-- selection.
pub mod Progress
pub mod Others
pub mod Rounds
pub mod Batch
use brainstorm_server.Common.{
  ℕ, suc, ◌+◌, String, Bool, true, false, Option, none, some, List, [], ◌∷◌, if◌then◌else◌,
}
use brainstorm_server.Flash.{Datetime}
use brainstorm_server.Billing.Tables.{UserSubscription}
use brainstorm_server.Billing.Session.{
  Session, Exec, Result, ok, raise, pure, throw, commit, rollback, flash_unavailable,
  flash_credential_error, ◌>>=◌, ◌>>◌,
}
use brainstorm_server.Billing.Environment.{Environment}
use brainstorm_server.Billing.Entitlement.{
  EntitlementReason, no_reference, unknown_user, unknown_plan, unknown_subscription,
  reference_mismatch, reason_value, EntitlementOutcome,
}
use brainstorm_server.Billing.Repos.Subscriptions.{record_sync_failure_on_db}
use brainstorm_server.Billing.Repos.Candidates.{AbandonRule, select_reconcile_candidates_on_db}
use brainstorm_server.Billing.Apply.{apply_entitlement}

-- Membership in `_UNSETTLED_REASONS`.
abbrev pub is_unsettled : EntitlementReason → Bool
is_unsettled unknown_user = true
is_unsettled unknown_plan = true
is_unsettled unknown_subscription = true
is_unsettled reference_mismatch = true
is_unsettled no_reference = true
is_unsettled _ = false

pub record ReconcileResult : Type 0 where
  pub reconciled : ℕ
  pub failed : ℕ

-- How one round of the loop ends, if it raises nothing: `stopped` is the `break`.
pub data Round : Type 0 where
  settled missed stopped : Round

abbrev pub note_failure : String → String → Datetime → Exec (Unit {0})
note_failure pubkey reason now = do record_sync_failure_on_db pubkey reason now; commit

abbrev pub on_outcome : String → Datetime → Result EntitlementOutcome → Exec Round
on_outcome pubkey now (ok outcome) =
    if is_unsettled outcome.reason
    then (do note_failure pubkey (reason_value outcome.reason) now; pure missed)
    else pure settled
on_outcome pubkey now (raise flash_credential_error) = do
  rollback
  note_failure pubkey "credentials refused" now
  pure stopped
on_outcome pubkey now (raise (flash_unavailable why)) = do
  rollback
  note_failure pubkey why now
  pure missed
on_outcome pubkey now (raise e) = throw e

module _ (env : Environment) where
  unfoldable pub reconcile_row : Datetime → UserSubscription → Exec Round
  reconcile_row now row s =
      let run = apply_entitlement env (some row.pubkey) none false false now s in
      on_outcome row.pubkey now run.0 run.1

  abbrev pub after_round : Round → Exec ReconcileResult → Exec ReconcileResult
  after_round settled rest = do r ← rest; pure (record r { reconciled = suc r.reconciled })
  after_round missed rest = do r ← rest; pure (record r { failed = suc r.failed })
  after_round stopped rest = pure (record { reconciled = 0; failed = 1 })

  unfoldable pub reconcile_rows : (ℕ → Datetime) → List UserSubscription → Exec ReconcileResult
  reconcile_rows clock [] = pure (record { reconciled = 0; failed = 0 })
  reconcile_rows clock (row ∷ rows) = do
    round ← reconcile_row (clock 0) row
    after_round round (reconcile_rows (λ n. clock (suc n)) rows)

  unfoldable pub reconcile_subscriptions :
      ℕ → ℕ → ℕ → Datetime → (ℕ → Datetime) → Exec ReconcileResult
  reconcile_subscriptions limit stale_after abandon_pending_after at clock = do
    candidates ←
        select_reconcile_candidates_on_db at stale_after limit
          (record { after = abandon_pending_after; error = reason_value unknown_subscription })
    reconcile_rows clock candidates
