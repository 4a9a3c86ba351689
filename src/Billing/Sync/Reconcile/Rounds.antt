-- ===== src/Billing/Sync/Reconcile/Rounds.antt =====
-- The rounds of a batch of `reconcile_subscriptions` of app/services/billing_sync_service.py: what
-- one does for the records, and how the batch goes on after it.
use brainstorm_server.Common.{
  ℕ, suc, ◌+◌, String, ◌≡◌, refl, sym, ap, subst, ◌∙◌, ◌⊎◌, inl, inr, some, arith, Bool-cases,
  str_eq, eq_iff,
}
use brainstorm_server.Flash.{Datetime}
use brainstorm_server.Billing.Tables.{UserSubscription}
use brainstorm_server.Billing.Session.{Session, Exec, Result, ok, raise, continue, pure}
use brainstorm_server.Billing.Environment.{Environment}
use brainstorm_server.Billing.Repos.Subscriptions.{subscription_of}
use brainstorm_server.Billing.Sync.Reconcile.{
  Round, settled, missed, stopped, reconcile_row, ReconcileResult, after_round,
}
use brainstorm_server.Billing.Sync.Reconcile.Progress.{IsReadAt, round-IsReadAt}
use brainstorm_server.Billing.Sync.Reconcile.Others.{round-Apart}

-- The read clock stands at the time of one of the rounds.
abbrev pub IsRead : (ℕ → Datetime) → String → Session → Type 0
IsRead clock k t = (n : ℕ) × IsReadAt k (clock n) t

abbrev pub HasRecord : Session → UserSubscription → Type 0
HasRecord s row = (r : UserSubscription) × (subscription_of s.db row.pubkey ≡ some r)

-- The rounds that a result counts.
abbrev pub done : ReconcileResult → ℕ
done r = r.reconciled + r.failed

module _ (env : Environment) where
  -- How a round goes on: it stops the batch, or the rest of the batch counts one fewer.
  unfoldable pub Continues : Exec ReconcileResult → Round → Session → ReconcileResult → Type 0
  Continues rest round m result =
      ((done result ≡ 1) × ((after_round env round rest m).1 ≡ m))
      ⊎ ((r : ReconcileResult) × ((rest m).0 ≡ ok r)
          × (done result ≡ suc (done r))
          × ((after_round env round rest m).1 ≡ (rest m).1))

  rested :
      (f : ReconcileResult → ReconcileResult)
      → ((r : ReconcileResult) → done (f r) ≡ suc (done r))
      → (y : Result ReconcileResult) (t : Session) (result : ReconcileResult)
      → (continue y (λ r. pure (f r)) t).0 ≡ ok result
      → (r : ReconcileResult) × (y ≡ ok r)
        × (done result ≡ suc (done r))
        × ((continue y (λ r. pure (f r)) t).1 ≡ t)
  rested f more (raise e) t result h = cc
  rested f more (ok r) t result h =
      let same : f r ≡ result = cc in (r, refl, (sym (ap done same) ∙ more r), refl)

  pub round-Continues :
      (rest : Exec ReconcileResult) (round : Round) (m : Session) (result : ReconcileResult)
      → (after_round env round rest m).0 ≡ ok result
      → Continues rest round m result
  unfolding Continues
  round-Continues rest settled m result h = inr (
      rested (λ r. record r { reconciled = suc r.reconciled }) (λ r. omega arith) (rest m).0
        (rest m).1 result h)
  round-Continues rest missed m result h = inr (
      rested (λ r. record r { failed = suc r.failed }) (λ r. omega arith) (rest m).0 (rest m).1
        result h)
  round-Continues rest stopped m result h =
      let same : record { reconciled = 0; failed = 1 } ≡ result = cc in
      inl (sym (ap done same), refl)

  -- One round, seen by any user with a record.
  module _ (now : Datetime) (row : UserSubscription) (s : Session) (round : Round)
      (clean : s.saved ≡ s.db) (mine : HasRecord s row)
      (fine : (reconcile_row env now row s).0 ≡ ok round) where
    pub read_here : IsReadAt row.pubkey now (reconcile_row env now row s).1
    read_here = round-IsReadAt env now row mine.0 s mine.1 round clean fine

    pub still_clean : (reconcile_row env now row s).1.saved ≡ (reconcile_row env now row s).1.db
    still_clean = (round-Apart env now row row.pubkey s clean round fine).1

    -- Another record is as it was; this one has been read.
    pub seen_by :
        (k : String)
        → (subscription_of (reconcile_row env now row s).1.db k ≡ subscription_of s.db k)
          ⊎ IsReadAt k now (reconcile_row env now row s).1
    seen_by k = elim (Bool-cases (str_eq k row.pubkey)) [
      | inl e ↦ inr (
          subst (λ u. IsReadAt u now (reconcile_row env now row s).1)
            (sym ((eq_iff k row.pubkey).0 e)) read_here)
      | inr e ↦ inl (
          (round-Apart env now row k s clean round fine).0 (λ q. cc ((eq_iff k row.pubkey).1 q, e)))
    ]

    pub still_HasRecord :
        (other : UserSubscription)
        → HasRecord s other
        → HasRecord (reconcile_row env now row s).1 other
    still_HasRecord other (r, e) = elim (seen_by other.pubkey) [
      | inl same ↦ (r, same ∙ e)
      | inr (q, there, at) ↦ (q, there)
    ]
