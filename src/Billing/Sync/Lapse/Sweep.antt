-- ===== src/Billing/Sync/Lapse/Sweep.antt =====
-- Whom the lapse sweep of app/services/billing_sync_service.py reaches, and what it leaves them.
use brainstorm_server.Common.{
  ℕ, ◌+◌, ◌≡◌, ◌≢◌, refl, sym, ap, ◌∙◌, String, Bool, true, false, not, Option, none, some, List,
  [], ◌∷◌, ◌&&◌, ◌||◌, arith, Bool-cases, subst, inl, inr, ◌⊎◌, is_some, str_eq, eq_iff,
  if◌then◌else◌,
}
use brainstorm_server.Table.Where.{select}
use brainstorm_server.Flash.{Datetime, past_due_status}
use brainstorm_server.Billing.Tables.{UserSubscription, default_source}
use brainstorm_server.Billing.Session.{Session, ok, commit, continue-pure}
use brainstorm_server.Billing.Entitlement.{
  resolve_entitlement, decide_entitlement, decide_past_due, is_admin_held,
}
use brainstorm_server.Billing.Repos.Nsec.{nsec_of, source_of}
use brainstorm_server.Billing.Repos.Subscriptions.{subscription_of}
use brainstorm_server.Billing.Apply.{granted_of}
use brainstorm_server.Billing.Apply.Safety.{scheduling_of}
use brainstorm_server.Billing.Unbilled.{
  unbilled, nsec_of-unbilled, granted-unbilled, nsec_of-unbilled_ne, subscription_of-unbilled_ne,
}
use brainstorm_server.Billing.Sync.Lapse.{
  is_revoke, lapse_decision, take_back_lapsed, revoke_granted, revoke_row, revoke_rows,
  revoke_lapsed_entitlements,
}

-- A row that the sweep judges to have run out.
unfoldable pub has_lapsed : Datetime → UserSubscription → Bool
has_lapsed now row = is_some row.granted_scheduling_id && is_revoke (lapse_decision now row)

-- Some row of a user's among these has.
unfoldable pub lapsed_for : Datetime → String → List UserSubscription → Bool
unfolding has_lapsed
lapsed_for now k [] = false
lapsed_for now k (row ∷ rows) = (str_eq row.pubkey k && has_lapsed now row) || lapsed_for now k rows

abbrev swept : String → Session → Session
swept pubkey s = record s { db = unbilled pubkey s.db; saved = unbilled pubkey s.db }

abbrev is_due : Datetime → UserSubscription → Session → Bool
is_due now row s = has_lapsed now row && not (is_admin_held (source_of (nsec_of s.db row.pubkey)))

-- One round takes everything back, or does nothing.
revoke_row_lem :
    (now : Datetime) (row : UserSubscription) (s : Session)
    → revoke_row now row s ≡ (if is_due now row s then (ok 1, swept row.pubkey s) else (ok 0, s))
unfolding revoke_row has_lapsed take_back_lapsed resolve_entitlement commit
revoke_row_lem now row s = on_grant row.granted_scheduling_id
  where
    on_grant :
        (o : Option ℕ)
        → revoke_granted now row o s ≡ (
            if (is_some o && is_revoke (lapse_decision now row))
              && not (is_admin_held (source_of (nsec_of s.db row.pubkey)))
            then (ok 1, swept row.pubkey s)
            else (ok 0, s))
    on_grant none = refl
    on_grant (some granted) = elim (Bool-cases (is_revoke (lapse_decision now row))) [
      | inr e ↦ rw e
      | inl e ↦ elim (Bool-cases (is_admin_held (source_of (nsec_of s.db row.pubkey)))) [
        | inl a ↦ rw e (rw a)
        | inr a ↦ rw e (rw a)
      ]
    ]

-- What a user is left with, if the sweep finds something of theirs that has lapsed.
abbrev pub IsSwept : String → Session → Type 0
IsSwept k s =
    (scheduling_of (nsec_of s.db k) ≡ none)
    × (source_of (nsec_of s.db k) ≡ default_source)
    × (granted_of (subscription_of s.db k) ≡ none)

abbrev pub IsSame : String → Session → Session → Type 0
IsSame k s t = (nsec_of t.db k ≡ nsec_of s.db k) × (subscription_of t.db k ≡ subscription_of s.db k)

-- What became of a user, of whom something has lapsed or not.
abbrev pub Outcome : String → Bool → Session → Session → Type 0
Outcome k lapsed s t =
    (IsSame k s t × ((lapsed ≡ false) ⊎ (is_admin_held (source_of (nsec_of s.db k)) ≡ true)))
    ⊎ ((lapsed ≡ true) × (is_admin_held (source_of (nsec_of s.db k)) ≡ false) × IsSwept k t)

abbrev Seen : Datetime → String → UserSubscription → Session → Session → Type 0
Seen now k row s t = Outcome k (str_eq row.pubkey k && has_lapsed now row) s t

-- Two outcomes in a row.
Outcome-trans :
    (k : String) (a b : Bool) (s m t : Session)
    → Outcome k a s m
    → Outcome k b m t
    → Outcome k (a || b) s t
Outcome-trans k a b s m t (inl ((n, u), inr held)) (inl ((n', u'), why')) =
    inl ((n' ∙ n, u' ∙ u), inr held)
Outcome-trans k a b s m t (inl ((n, u), inl clear)) (inl ((n', u'), inr held)) =
    inl ((n' ∙ n, u' ∙ u), inr (ap (λ o. is_admin_held (source_of o)) (sym n) ∙ held))
Outcome-trans k a b s m t (inl ((n, u), inl clear)) (inl ((n', u'), inl clear')) =
    inl ((n' ∙ n, u' ∙ u), inl (rw clear clear'))
Outcome-trans k a b s m t (inl ((n, u), why)) (inr (l, free, gone)) =
    inr (ground arith, ap (λ o. is_admin_held (source_of o)) (sym n) ∙ free, gone)
Outcome-trans k a b s m t (inr (l, free, (p, q, g))) (inl ((n, u), why)) =
    inr (ground arith, free, (ap scheduling_of n ∙ p, ap source_of n ∙ q, ap granted_of u ∙ g))
Outcome-trans k a b s m t (inr (l, free, gone)) (inr (l', free', gone')) =
    inr (ground arith, free, gone')

swept-IsSwept : (k : String) (s : Session) → IsSwept k (swept k s)
swept-IsSwept k s = (
  ap scheduling_of (nsec_of-unbilled k s.db),
  ap source_of (nsec_of-unbilled k s.db),
  granted-unbilled k s.db,
)

module _ (now : Datetime) (k : String) where
  swept-Seen :
      (row : UserSubscription) (s : Session)
      → is_due now row s ≡ true
      → Seen now k row s (swept row.pubkey s)
  swept-Seen row s due = elim (Bool-cases (str_eq row.pubkey k)) [
    | inr e ↦
        let ne : k ≢ row.pubkey = (λ q. cc ((eq_iff row.pubkey k).1 (sym q), e)) in
        inl (
          (
            nsec_of-unbilled_ne row.pubkey k s.db ne,
            subscription_of-unbilled_ne row.pubkey k s.db ne,
          ),
          inl (rw e refl),
        )
    | inl e ↦
        let same : row.pubkey ≡ k = (eq_iff row.pubkey k).0 e in
        inr (
          ground arith,
          subst (λ u. is_admin_held (source_of (nsec_of s.db u)) ≡ false) same (ground arith),
          subst (λ u. IsSwept k (swept u s)) (sym same) (swept-IsSwept k s),
        )
  ]

  left-Seen : (row : UserSubscription) (s : Session) → is_due now row s ≡ false → Seen now k row s s
  left-Seen row s due = elim (Bool-cases (str_eq row.pubkey k)) [
    | inr e ↦ inl ((refl, refl), inl (rw e refl))
    | inl e ↦
        let same : row.pubkey ≡ k = (eq_iff row.pubkey k).0 e in
        elim (Bool-cases (has_lapsed now row)) [
          | inr l ↦ inl ((refl, refl), inl (rw e l))
          | inl l ↦ inl (
            (refl, refl),
            inr (
                subst (λ u. is_admin_held (source_of (nsec_of s.db u)) ≡ true) same (ground arith)),
          )
        ]
  ]

  round-Seen : (row : UserSubscription) (s : Session) → Seen now k row s (revoke_row now row s).1
  round-Seen row s = rw (revoke_row_lem now row s) (elim (Bool-cases (is_due now row s)) [
    | inl e ↦ rw e (swept-Seen row s e)
    | inr e ↦ rw e (left-Seen row s e)
  ])

  revoke_rows_lem :
      (row : UserSubscription) (rows : List UserSubscription) (s : Session)
      → (revoke_rows now (row ∷ rows) s).1 ≡ (revoke_rows now rows (revoke_row now row s).1).1
  unfolding revoke_rows
  revoke_rows_lem row rows s = rw (revoke_row_lem now row s) (elim (Bool-cases (is_due now row s)) [
    | inl e ↦ rw e (continue-pure _ (λ more. 1 + more) _)
    | inr e ↦ rw e (continue-pure _ (λ more. 0 + more) _)
  ])

  -- Whatever rows the sweep goes through, each user is left as they were, or loses the policy and
  -- the record of the grant. It is the latter exactly where one of the rows is theirs and has
  -- lapsed, and no admin assigned their policy.
  pub sweep_iff :
      (rows : List UserSubscription) (s : Session)
      → Outcome k (lapsed_for now k rows) s (revoke_rows now rows s).1
  unfolding lapsed_for revoke_rows
  sweep_iff [] s = inl ((refl, refl), inl refl)
  sweep_iff (row ∷ rows) s =
      subst (Outcome k (lapsed_for now k (row ∷ rows)) s) (sym (revoke_rows_lem row rows s)) (
        Outcome-trans k (str_eq row.pubkey k && has_lapsed now row) (lapsed_for now k rows) s
          (revoke_row now row s).1 (revoke_rows now rows (revoke_row now row s).1).1
          (round-Seen row s) (sweep_iff rows (revoke_row now row s).1))

-- A user of whom some row is past due, whatever its dates, is not revoked on that row's account.
past_due-lapse :
    (now : Datetime) (row : UserSubscription)
    → row.flash_status ≡ past_due_status
    → has_lapsed now row ≡ false
unfolding has_lapsed lapse_decision decide_entitlement decide_past_due
past_due-lapse now row e = rw e (and_false (is_some row.granted_scheduling_id))
  where
    and_false : (b : Bool) → (b && false) ≡ false
    and_false true = refl
    and_false false = refl

-- The lapse sweep leaves a user as they were, or takes back their policy and the record of the
-- grant. It is the latter exactly where a row of theirs that records a grant has lapsed, and no admin
-- assigned their policy.
pub lapse_lem :
    (now : Datetime) (k : String) (s : Session)
    → let rows = select (λ r. is_some r.granted_scheduling_id) s.db.subscriptions in
      Outcome k (lapsed_for now k rows) s (revoke_lapsed_entitlements now s).1
unfolding revoke_lapsed_entitlements
lapse_lem now k s =
    sweep_iff now k (select (λ r. is_some r.granted_scheduling_id) s.db.subscriptions) s
