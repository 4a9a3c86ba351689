-- ===== src/Billing/Admin/Plans.antt =====
-- The change of a plan mapping, in `update_billing_plan` of app/services/billing_service.py.
use brainstorm_server.Common.{
  ℕ, ◌≡◌, refl, ap, ◌⊎◌, inl, inr, String, Bool, true, false, Option, none, some, List, [], ◌∷◌,
  arith, Bool-cases, ◌==◌, is_some,
}
use brainstorm_server.Table.Where.{update, count}
use brainstorm_server.Billing.Tables.{BillingPlan}
use brainstorm_server.Billing.Session.{Session, Fault, Result, ok, raise, http_exception, commit}
use brainstorm_server.Billing.Repos.Nsec.{scheduling_with}
use brainstorm_server.Billing.Repos.Events.{reset_events_awaiting_plan_on_db}
use brainstorm_server.Billing.Repos.Plans.{PlanChange, first_plan, plan_matches, changed}
use brainstorm_server.Billing.Admin.{
  require_scheduling, require_some_scheduling, require_unused_flash_ids, require_free_to_rename,
  update_billing_plan, change_plan, is_reidentified, new_service_id, new_plan_id,
}

-- A check passes or raises, and touches nothing.
Passes : Result (Unit {0}) × Session → Session → Type 0
Passes o s = (o ≡ (ok tt, s)) ⊎ ((e : Fault) × (o ≡ (raise e, s)))

scheduling-Passes : (o : Option ℕ) (s : Session) → Passes (require_some_scheduling o s) s
unfolding Passes require_scheduling
scheduling-Passes none s = inl refl
scheduling-Passes (some id) s = elim (Bool-cases (is_some (scheduling_with id s.db.schedulings))) [
  | inl e ↦ inl (rw e)
  | inr e ↦ inr (http_exception 404, rw e)
]

-- The plan keeps its ids in Flash, or nobody is on it and no plan has the new ones.
abbrev pub MayRename : Session → ℕ → String → String → Bool → Type 0
MayRename s plan_id service_id plan_ref is_reidentified =
    (is_reidentified ≡ false)
    ⊎ ((count (λ r. r.billing_plan_id == plan_id) s.db.subscriptions ≡ 0)
        × (is_some (first_plan (plan_matches service_id plan_ref) s.db.plans) ≡ false))

rename-Passes :
    (s : Session) (plan_id : ℕ) (service_id plan_ref : String) (b : Bool)
    → ((require_free_to_rename plan_id service_id plan_ref b s ≡ (ok tt, s))
        × MayRename s plan_id service_id plan_ref b)
      ⊎ ((e : Fault) × (require_free_to_rename plan_id service_id plan_ref b s ≡ (raise e, s)))
unfolding require_free_to_rename require_unused_flash_ids
rename-Passes s plan_id service_id plan_ref false = inl (refl, inl refl)
rename-Passes s plan_id service_id plan_ref true =
    elim (Bool-cases (count (λ r. r.billing_plan_id == plan_id) s.db.subscriptions == 0)) [
      | inr e ↦ inr (http_exception 409, rw e)
      | inl e ↦
          elim (Bool-cases (is_some (first_plan (plan_matches service_id plan_ref) s.db.plans))) [
            | inl p ↦ inr (http_exception 409, rw e (rw p))
            | inr p ↦ inl (rw e (rw p), inr (ground arith, p))
          ]
    ]

abbrev has_plan_id : ℕ → BillingPlan → Bool
has_plan_id plan_id p = p.id == plan_id

first_plan-update :
    (plan_id : ℕ) (c : PlanChange) (current : BillingPlan) (ps : List BillingPlan)
    → first_plan (has_plan_id plan_id) ps ≡ some current
    → first_plan (has_plan_id plan_id) (update (has_plan_id plan_id) (changed c) ps)
      ≡ some (changed c current)
unfolding update
first_plan-update plan_id c current [] h = cc
first_plan-update plan_id c current (p ∷ ps) h = elim (Bool-cases (p.id == plan_id)) [
  | inl e ↦ let same : p ≡ current = ground arith in rw e (rw e (ap (λ q. some (changed c q)) same))
  | inr e ↦
      let further : first_plan (has_plan_id plan_id) ps ≡ some current = ground arith in
      rw e (rw e (first_plan-update plan_id c current ps further))
]

module _ (plan_id : ℕ) (c : PlanChange) (current : BillingPlan) (s : Session)
    (known : first_plan (has_plan_id plan_id) s.db.plans ≡ some current) where
  -- The mapping is changed, and committed, and no record of a subscriber is.
  abbrev pub Changed : Result BillingPlan × Session → Type 0
  Changed o =
      (o.0 ≡ ok (changed c current))
      × (o.1.db.plans ≡ update (has_plan_id plan_id) (changed c) s.db.plans)
      × (o.1.db.subscriptions ≡ s.db.subscriptions)
      × (o.1.saved ≡ o.1.db)

  freed-Changed :
      (b : Bool)
      → require_free_to_rename plan_id (new_service_id c current) (new_plan_id c current) b s
        ≡ (ok tt, s)
      → is_reidentified c current ≡ b
      → Changed (change_plan plan_id c current s)
  unfolding change_plan commit reset_events_awaiting_plan_on_db
  freed-Changed false e same =
      rw same
        (rw e (rw (first_plan-update plan_id c current s.db.plans known) (refl, refl, refl, refl)))
  freed-Changed true e same =
      rw same
        (rw e (rw (first_plan-update plan_id c current s.db.plans known) (refl, refl, refl, refl)))

  stopped :
      (e : Fault)
      → require_free_to_rename plan_id
          (new_service_id c current)
          (new_plan_id c current)
          (is_reidentified c current)
          s
        ≡ (raise e, s)
      → change_plan plan_id c current s ≡ (raise e, s)
  unfolding change_plan
  stopped e h = rw h

  -- Changing a mapping that exists either raises and changes nothing; or it changes that mapping as
  -- asked, no record of a subscriber, and commits. The latter only where the mapping keeps its ids in
  -- Flash, or nobody is on the plan and no mapping has the new ones.
  pub update_billing_plan_lem :
      ((e : Fault) × (update_billing_plan plan_id c s ≡ (raise e, s)))
      ⊎ (MayRename s plan_id
            (new_service_id c current)
            (new_plan_id c current)
            (is_reidentified c current)
          × Changed (update_billing_plan plan_id c s))
  unfolding update_billing_plan Passes
  update_billing_plan_lem = elim (scheduling-Passes c.scheduling_id s) [
    | inr (e, h) ↦ inl (e, rw h)
    | inl h ↦ rw h (
        rw known
          (elim (rename-Passes s plan_id (new_service_id c current) (new_plan_id c current)
            (is_reidentified c current)) [
              | inl (pass, may) ↦ inr (may, freed-Changed (is_reidentified c current) pass refl)
              | inr (e, stop) ↦ inl (e, stopped e stop)
            ]))
  ]
