-- ===== src/Billing/Admin/Creation.antt =====
-- A new plan mapping, in `create_billing_plan` of app/services/billing_service.py.
use brainstorm_server.Common.{
  ℕ, ◌≡◌, refl, subst, ◌⊎◌, inl, inr, String, Bool, true, false, Option, none, some, is_some, List,
  [], ◌∷◌, ◌++◌, arith, Bool-cases, eq_iff, if◌then◌else◌,
}
use brainstorm_server.Table.Where.{count, count-update}
use brainstorm_server.Billing.Tables.{BillingPlan, FlashWebhookEvent}
use brainstorm_server.Billing.Session.{Session, Result, ok, raise, http_exception, commit}
use brainstorm_server.Billing.Entitlement.{unknown_plan, reason_value}
use brainstorm_server.Billing.Repos.Nsec.{scheduling_with}
use brainstorm_server.Billing.Repos.Events.{
  reset_events_awaiting_plan_on_db, awaits_plan, replayable,
}
use brainstorm_server.Billing.Repos.Plans.{first_plan, plan_matches}
use brainstorm_server.Billing.Admin.{
  require_scheduling, require_unused_flash_ids, create_billing_plan,
}

or_none : (o : Option BillingPlan) → (if is_some o then o else none) ≡ o
or_none none = refl
or_none (some p) = refl

-- A row behind all others is found where none of them passes.
first_plan-append :
    (test : BillingPlan → Bool) (p : BillingPlan) (ps : List BillingPlan)
    → first_plan test (ps ++ p ∷ []) ≡ (
        if is_some (first_plan test ps)
        then first_plan test ps
        else if test p
        then some p
        else none)
first_plan-append test p [] = refl
first_plan-append test p (q ∷ ps) = elim (Bool-cases (test q)) [
  | inl e ↦ rw e refl
  | inr e ↦ rw e (first_plan-append test p ps)
]

-- The two ids decide which rows match.
same_ids :
    (service_id plan_id : String) (p : BillingPlan) (ps : List BillingPlan)
    → is_some (first_plan (plan_matches p.flash_service_id p.flash_plan_id) ps) ≡ false
    → plan_matches service_id plan_id p ≡ true
    → is_some (first_plan (plan_matches service_id plan_id) ps) ≡ false
same_ids service_id plan_id p ps h same =
    let service : p.flash_service_id ≡ service_id =
      ground (arith, eq_iff p.flash_service_id service_id) in
    let plan : p.flash_plan_id ≡ plan_id = ground (arith, eq_iff p.flash_plan_id plan_id) in
    subst (λ a. is_some (first_plan (plan_matches a plan_id) ps) ≡ false) service
      (subst (λ a. is_some (first_plan (plan_matches p.flash_service_id a) ps) ≡ false) plan h)

replayable-not_awaiting :
    (service_id plan_id error : String) (e : FlashWebhookEvent)
    → awaits_plan service_id plan_id error (replayable e) ≡ false
unfolding awaits_plan replayable
replayable-not_awaiting service_id plan_id error e = ground arith

module _ (service_id plan_id : String) (scheduling_id : ℕ) (is_active : Bool) (s : Session) where
  abbrev pub creation : Result BillingPlan × Session
  creation = create_billing_plan service_id plan_id scheduling_id is_active s

  abbrev pub new_plan : BillingPlan
  new_plan = record {
    id = s.plan_seq;
    flash_service_id = service_id;
    flash_plan_id = plan_id;
    scheduling_id = scheduling_id;
    is_active = is_active;
  }

  abbrev pub is_known : Bool
  is_known = is_some (scheduling_with scheduling_id s.db.schedulings)

  abbrev pub is_used : Bool
  is_used = is_some (first_plan (plan_matches service_id plan_id) s.db.plans)

  -- The mapping is there for its two ids, every other pair finds what it found, no event still
  -- waits for the mapping, no record of a subscriber has changed, and all is committed.
  abbrev pub Created : String → String → Type 0
  Created service plan =
      (creation.0 ≡ ok new_plan)
      × (first_plan (plan_matches service plan) creation.1.db.plans ≡ (
          if plan_matches service plan new_plan
          then some new_plan
          else first_plan (plan_matches service plan) s.db.plans))
      × (count (awaits_plan service_id plan_id (reason_value unknown_plan)) creation.1.db.events
          ≡ 0)
      × (creation.1.db.subscriptions ≡ s.db.subscriptions)
      × (creation.1.saved ≡ creation.1.db)

  found_after :
      (service plan : String)
      → is_used ≡ false
      → first_plan (plan_matches service plan) (s.db.plans ++ new_plan ∷ []) ≡ (
          if plan_matches service plan new_plan
          then some new_plan
          else first_plan (plan_matches service plan) s.db.plans)
  found_after service plan h =
      rw (first_plan-append (plan_matches service plan) new_plan s.db.plans)
        (elim (Bool-cases (plan_matches service plan new_plan)) [
          | inl e ↦ rw e (rw (same_ids service plan new_plan s.db.plans h e) refl)
          | inr e ↦ rw e (or_none (first_plan (plan_matches service plan) s.db.plans))
        ])

  created : (service plan : String) → is_known ≡ true → is_used ≡ false → Created service plan
  unfolding create_billing_plan require_scheduling require_unused_flash_ids commit
      reset_events_awaiting_plan_on_db
  created service plan k u = (
    rw k (rw u refl),
    rw k (rw u (found_after service plan u)),
    rw k (
        rw u (
          count-update (awaits_plan service_id plan_id (reason_value unknown_plan)) replayable
            (replayable-not_awaiting service_id plan_id (reason_value unknown_plan)) s.db.events)),
    rw k (rw u refl),
    rw k (rw u refl),
  )

  -- Creating a mapping is refused with 404 where the policy is unknown, else with 409 where a mapping
  -- has the two ids, and then changes nothing. Else the new mapping is found under its ids and every
  -- other pair of ids finds what it found before, no event waits for the mapping any more, no
  -- record of a subscriber has changed, and all is committed.
  pub create_billing_plan_lem :
      (service plan : String)
      → ((is_known ≡ false) × (creation ≡ (raise (http_exception 404), s)))
        ⊎ ((is_known ≡ true) × (is_used ≡ true) × (creation ≡ (raise (http_exception 409), s)))
        ⊎ ((is_known ≡ true) × (is_used ≡ false) × Created service plan)
  unfolding create_billing_plan require_scheduling require_unused_flash_ids
  create_billing_plan_lem service plan = elim (Bool-cases is_known) [
    | inr k ↦ inl (k, rw k refl)
    | inl k ↦ elim (Bool-cases is_used) [
      | inl u ↦ inr (inl (k, u, rw k (rw u refl)))
      | inr u ↦ inr (inr (k, u, created service plan k u))
    ]
  ]
