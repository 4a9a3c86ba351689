-- ===== src/Billing/Entitlement/Decide.antt =====
-- When `decide_entitlement` of app/services/billing_service.py takes a tier away.
use brainstorm_server.Common.{
  ◌↔◌, ◌≤◌, String, Bool, true, false, ◌≡◌, ◌⊎◌, inl, inr, Option, none, some, arith, refl, is_in,
  str_eq, eq_iff, or_else, Bool-cases, opt_str_eq, opt_str_eq→eq,
}
use brainstorm_server.Common.Int.{ℤ, ◌≤ℤ◌}
use brainstorm_server.Flash.{
  Datetime, FlashLifecyclePolicy, entitling_statuses, ended_statuses, past_due_status,
  cancelled_status, cancellation_immediate,
}
use brainstorm_server.Billing.Entitlement.{
  hold, revoke, decide_entitlement, decide_past_due, decide_cancelled, attempts_spent, still_paid,
}

-- The retrying is over: Flash cancels nothing after the last failed attempt, and all were made.
pub record DunningIsOver (p : FlashLifecyclePolicy) : Type 0 where
  pub made : ℤ
  pub allowed : ℤ
  pub never_cancels : p.dunning_cancels_after_final_failure ≡ some false
  pub made_known : p.dunning_attempts ≡ some made
  pub allowed_known : p.dunning_max_attempts ≡ some allowed
  pub spent : allowed ≤ℤ made

-- The paid time is over: the policy ends it at once, or no end lies ahead.
abbrev pub PaidTimeIsOver : FlashLifecyclePolicy → Option Datetime → Datetime → Type 0
PaidTimeIsOver p ends now =
    (p.cancellation_mode ≡ some cancellation_immediate)
    ⊎ ((ends ≡ none) ⊎ ((e : Datetime) × (ends ≡ some e) × (e ≤ now)))

-- Whether the ending of a subscription is not in doubt.
pub data IsOver (status : String) (ends : Option Datetime) (now : Datetime)
    (p : FlashLifecyclePolicy) : Type 0 where
  ended : is_in status ended_statuses ≡ true → IsOver status ends now p
  dunned : status ≡ past_due_status → DunningIsOver p → IsOver status ends now p
  lapsed : status ≡ cancelled_status → PaidTimeIsOver p ends now → IsOver status ends now p

spent_attempts :
    (made allowed : Option ℤ)
    → attempts_spent made allowed ≡ revoke
    → (m : ℤ) × (a : ℤ) × (made ≡ some m) × (allowed ≡ some a) × (a ≤ℤ m)
unfolding attempts_spent
spent_attempts none allowed h = cc
spent_attempts (some m) none h = cc
spent_attempts (some m) (some a) h = (m, a, refl, refl, ground arith)

unpaid :
    (ends : Option Datetime) (now : Datetime)
    → still_paid ends now ≡ revoke
    → (ends ≡ none) ⊎ ((e : Datetime) × (ends ≡ some e) × (e ≤ now))
unfolding still_paid
unpaid none now h = inl refl
unpaid (some e) now h = inr (e, refl, ground arith)

module _ (p : FlashLifecyclePolicy) where
  past_due-revoke :
      (c : Option Bool)
      → p.dunning_cancels_after_final_failure ≡ c
      → decide_past_due p ≡ revoke
      → DunningIsOver p
  unfolding decide_past_due
  past_due-revoke none e h = absurd (ground arith)
  past_due-revoke (some true) e h = absurd (ground arith)
  past_due-revoke (some false) e h =
      let (m, a, made, allowed, spent) =
        spent_attempts p.dunning_attempts p.dunning_max_attempts (ground arith) in
      record {
        made = m;
        allowed = a;
        never_cancels = e;
        made_known = made;
        allowed_known = allowed;
        spent = spent;
      }

  cancelled-revoke :
      (cancel period : Option Datetime) (now : Datetime)
      → decide_cancelled p cancel period now ≡ revoke
      → PaidTimeIsOver p (or_else cancel period) now
  unfolding decide_cancelled
  cancelled-revoke cancel period now h =
      elim (Bool-cases (opt_str_eq p.cancellation_mode (some cancellation_immediate))) [
        | inl e ↦ inl (opt_str_eq→eq _ _ e)
        | inr e ↦ inr (unpaid (or_else cancel period) now (ground arith))
      ]

  past_due_over : DunningIsOver p → decide_past_due p ≡ revoke
  unfolding decide_past_due attempts_spent
  past_due_over d =
      rw (d.never_cancels, decide_past_due)
        (rw (d.made_known, d.allowed_known, attempts_spent) (ground arith))

  cancelled_over :
      (cancel period : Option Datetime) (now : Datetime)
      → PaidTimeIsOver p (or_else cancel period) now
      → decide_cancelled p cancel period now ≡ revoke
  unfolding decide_cancelled
  cancelled_over cancel period now (inl e) = rw e
  cancelled_over cancel period now (inr (inl e)) = ground arith
  cancelled_over cancel period now (inr (inr (t, e, h))) = ground arith

ended_not_entitling :
    (status : String) → is_in status ended_statuses ≡ true → is_in status entitling_statuses ≡ false
ended_not_entitling status h = elim (Bool-cases (str_eq status "expired")) [
  | inl e ↦ rw ((eq_iff status "expired").0 e)
  | inr e ↦ rw ((eq_iff status "paused").0 (ground arith))
]

module _ (status : String) (cancel period : Option Datetime) (now : Datetime)
    (p : FlashLifecyclePolicy) where
  still_paid_later :
      (ends : Option Datetime) (later : Datetime)
      → now ≤ later
      → (still_paid ends later ≡ still_paid ends now)
        ⊎ ((still_paid ends now ≡ hold) × (still_paid ends later ≡ revoke))
  unfolding still_paid
  still_paid_later ends later h = ground arith

  -- A tier is taken away only where the ending is not in doubt: the status says that the
  -- subscription has ended, or its retries are spent and Flash will not cancel it, or it is
  -- cancelled and its paid time is over.
  pub decide-IsOver :
      decide_entitlement status cancel period now p ≡ revoke
      → IsOver status (or_else cancel period) now p
  unfolding decide_entitlement
  decide-IsOver h = elim (Bool-cases (is_in status entitling_statuses)) [
    | inl e ↦ absurd (ground arith)
    | inr e ↦ elim (Bool-cases (is_in status ended_statuses)) [
      | inl o ↦ ended o
      | inr o ↦ elim (Bool-cases (str_eq status past_due_status)) [
        | inl d ↦
            dunned ((eq_iff status past_due_status).0 d) (past_due-revoke p _ refl (ground arith))
        | inr d ↦ elim (Bool-cases (str_eq status cancelled_status)) [
          | inl c ↦
              lapsed ((eq_iff status cancelled_status).0 c)
                (cancelled-revoke p cancel period now (ground arith))
          | inr c ↦ absurd (ground arith)
        ]
      ]
    ]
  ]

  -- Where the ending is not in doubt the tier is taken away: the status says that the subscription
  -- has ended, or its retries are spent and Flash will not cancel it, or it is cancelled and its
  -- paid time is over.
  pub IsOver-decide :
      IsOver status (or_else cancel period) now p
      → decide_entitlement status cancel period now p ≡ revoke
  unfolding decide_entitlement
  IsOver-decide (ended e) = ground (arith, ended_not_entitling status e)
  IsOver-decide (dunned e d) = rw e (past_due_over p d)
  IsOver-decide (lapsed e d) = rw e (cancelled_over p cancel period now d)

  -- The decision is to revoke exactly where the ending is not in doubt: the status says that the subscription
  -- has ended, or its retries are spent and Flash will not cancel it, or it is cancelled and its paid time is
  -- over.
  pub decide_iff :
      (decide_entitlement status cancel period now p ≡ revoke)
      ↔ IsOver status (or_else cancel period) now p
  decide_iff = (decide-IsOver, IsOver-decide)

  -- For one report of Flash the passing of time can only turn a hold into a revocation: a grant
  -- stays a grant, and what is revoked stays revoked.
  pub decide_later :
      (later : Datetime)
      → now ≤ later
      → (decide_entitlement status cancel period later p
          ≡ decide_entitlement status cancel period now p)
        ⊎ ((decide_entitlement status cancel period now p ≡ hold)
            × (decide_entitlement status cancel period later p ≡ revoke))
  unfolding decide_entitlement decide_cancelled
  decide_later later h = ground (arith, still_paid_later (or_else cancel period) later)
