-- ===== src/Billing/Sync/Reconcile/Batch.antt =====
-- Which records a batch of `reconcile_subscriptions` of app/services/billing_sync_service.py has
-- read: as many of its rows as it counts.
use brainstorm_server.Common.{
  ℕ, zero, suc, String, ◌≡◌, refl, sym, subst, ◌∙◌, ◌⊎◌, inl, inr, List, [], ◌∷◌, take,
}
use brainstorm_server.Table.Where.{All}
use brainstorm_server.Flash.{Datetime}
use brainstorm_server.Billing.Tables.{UserSubscription}
use brainstorm_server.Billing.Session.{Session, Exec, Result, ok, raise, continue}
use brainstorm_server.Billing.Environment.{Environment}
use brainstorm_server.Billing.Repos.Subscriptions.{subscription_of}
use brainstorm_server.Billing.Sync.Reconcile.{
  Round, reconcile_row, reconcile_rows, ReconcileResult, after_round,
}
use brainstorm_server.Billing.Sync.Reconcile.Progress.{IsReadAt}
use brainstorm_server.Billing.Sync.Reconcile.Rounds.{
  IsRead, HasRecord, done, Continues, round-Continues, read_here, still_clean, seen_by,
  still_HasRecord,
}

module _ (env : Environment) where
  -- A batch that returns got through its first round.
  started :
      (f : Round → Exec ReconcileResult) (x : Result Round) (m : Session) (result : ReconcileResult)
      → (continue x f m).0 ≡ ok result
      → (round : Round) × (x ≡ ok round)
        × ((f round m).0 ≡ ok result)
        × ((continue x f m).1 ≡ (f round m).1)
  started f (raise e) m result h = cc
  started f (ok round) m result h = (round, refl, h, refl)

  All-each :
      (P Q : UserSubscription → Type 0)
      → ((x : UserSubscription) → P x → Q x)
      → (xs : List UserSubscription) → All P xs
      → All Q xs
  All-each P Q f [] h = tt
  All-each P Q f (x ∷ xs) h = (f x h.0, All-each P Q f xs h.1)

  All-take-nil : (P : UserSubscription → Type 0) (n : ℕ) → All P (take n [])
  All-take-nil P zero = tt
  All-take-nil P (suc n) = tt

  -- What a batch has done for the rows that it counts, and for anyone who was read before.
  abbrev Batch : (ℕ → Datetime) → List UserSubscription → ℕ → Session → Session → Type 0
  Batch clock rows n s t =
      All (λ row. IsRead clock row.pubkey t) (take n rows)
      × ((k : String) (at : Datetime) → IsReadAt k at s → IsReadAt k at t ⊎ IsRead clock k t)

  module _ (clock : ℕ → Datetime) (row : UserSubscription) (rows : List UserSubscription)
      (s m : Session) (read : IsReadAt row.pubkey (clock 0) m)
      (seen : (k : String)
        → (subscription_of m.db k ≡ subscription_of s.db k) ⊎ IsReadAt k (clock 0) m) where
    stopped-Batch : Batch clock (row ∷ rows) 1 s m
    stopped-Batch = (
      ((0, read), tt),
      (λ k at before. elim (seen k) [
        | inl same ↦ inl (before.0, same ∙ before.1, before.2)
        | inr now ↦ inr (0, now)
      ]),
    )

    later : (k : String) (t : Session) → IsRead (λ n. clock (suc n)) k t → IsRead clock k t
    later k t (n, at) = (suc n, at)

    went_on-Batch :
        (n : ℕ) (t : Session)
        → Batch (λ n. clock (suc n)) rows n m t
        → Batch clock (row ∷ rows) (suc n) s t
    went_on-Batch n t (reads, stays) = (
      (
        kept row.pubkey (stays row.pubkey (clock 0) read),
        All-each (λ r. IsRead (λ n. clock (suc n)) r.pubkey t) (λ r. IsRead clock r.pubkey t)
            (λ r. later r.pubkey t) (take n rows) reads,
      ),
      (λ k at before. elim (seen k) [
        | inl same ↦ elim (stays k at (before.0, same ∙ before.1, before.2)) [
          | inl still ↦ inl still
          | inr again ↦ inr (later k t again)
        ]
        | inr now ↦ inr (kept k (stays k (clock 0) now))
      ]),
    )
      where
        kept :
            (k : String)
            → IsReadAt k (clock 0) t ⊎ IsRead (λ n. clock (suc n)) k t
            → IsRead clock k t
        kept k (inl at) = (0, at)
        kept k (inr again) = later k t again

  module _ (clock : ℕ → Datetime) (row : UserSubscription) (rows : List UserSubscription)
      (s : Session) where
    abbrev after_first : Session
    after_first = (reconcile_row env (clock 0) row s).1

    abbrev rest : Exec ReconcileResult
    rest = reconcile_rows env (λ n. clock (suc n)) rows

    -- The rest of the batch, from the session that the first round leaves.
    RestReads : Type 0
    RestReads =
        (r : ReconcileResult)
        → (rest after_first).0 ≡ ok r
        → Batch (λ n. clock (suc n)) rows (done r) after_first (rest after_first).1

    first-Batch :
        (round : Round) (result : ReconcileResult)
        → IsReadAt row.pubkey (clock 0) after_first
        → ((k : String)
            → (subscription_of after_first.db k ≡ subscription_of s.db k)
              ⊎ IsReadAt k (clock 0) after_first)
        → RestReads
        → Continues env rest round after_first result
        → Batch clock (row ∷ rows) (done result) s (after_round env round rest after_first).1
    unfolding Continues RestReads
    first-Batch round result read seen reads (inl (one, same)) =
        subst (λ t. Batch clock (row ∷ rows) (done result) s t) (sym same)
          (subst (λ n. Batch clock (row ∷ rows) n s after_first) (sym one)
            (stopped-Batch clock row rows s after_first read seen))
    first-Batch round result read seen reads (inr (r, fine, more, same)) =
        subst (λ t. Batch clock (row ∷ rows) (done result) s t) (sym same)
          (subst (λ n. Batch clock (row ∷ rows) n s (rest after_first).1) (sym more)
            (went_on-Batch clock row rows s after_first read seen (done r) (rest after_first).1
              (reads r fine)))

  rows-Batch :
      (rows : List UserSubscription) (clock : ℕ → Datetime) (s : Session) (result : ReconcileResult)
      → s.saved ≡ s.db
      → All (HasRecord s) rows
      → (reconcile_rows env clock rows s).0 ≡ ok result
      → Batch clock rows (done result) s (reconcile_rows env clock rows s).1
  unfolding reconcile_rows RestReads
  rows-Batch [] clock s result clean records h =
      (All-take-nil _ (done result), (λ k at before. inl before))
  rows-Batch (row ∷ rows) clock s result clean records h =
      let (round, fine, going, same) =
        started (λ round. after_round env round (rest clock row rows s))
          (reconcile_row env (clock 0) row s).0 (after_first clock row rows s) result h in
      let now = clock 0 in
      let reads : RestReads clock row rows s = λ r.
        rows-Batch rows (λ n. clock (suc n)) (after_first clock row rows s) r
          (still_clean env now row s round clean records.0 fine)
          (All-each (HasRecord s) (HasRecord (after_first clock row rows s))
            (still_HasRecord env now row s round clean records.0 fine) rows records.1) in
      subst (λ t. Batch clock (row ∷ rows) (done result) s t) (sym same)
        (first-Batch clock row rows s round result
          (read_here env now row s round clean records.0 fine)
          (seen_by env now row s round clean records.0 fine) reads
          (round-Continues env (rest clock row rows s) round (after_first clock row rows s) result
            going))

  -- With nothing uncommitted, and a record for each row: a batch that returns has moved the read
  -- clock of as many of its rows as it counts, from the first on, to the time of one of its rounds.
  pub reconcile-IsRead :
      (rows : List UserSubscription) (clock : ℕ → Datetime) (s : Session) (result : ReconcileResult)
      → s.saved ≡ s.db
      → All (HasRecord s) rows
      → (reconcile_rows env clock rows s).0 ≡ ok result
      → All
          (λ row. IsRead clock row.pubkey (reconcile_rows env clock rows s).1)
          (take (done result) rows)
  reconcile-IsRead rows clock s result clean records h =
      (rows-Batch rows clock s result clean records h).0
