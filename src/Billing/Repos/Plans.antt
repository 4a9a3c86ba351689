-- ===== src/Billing/Repos/Plans.antt =====
-- app/repos/billing_plan_repo.py: the mapping from a Flash plan to what it grants.
use brainstorm_server.Common.{
  ℕ, suc, String, Bool, ◌&&◌, ◌||◌, not, Option, none, some, List, [], ◌∷◌, ◌++◌, str_eq, ◌==◌,
  if◌then◌else◌,
}
use brainstorm_server.Table.Where.{select, update}
use brainstorm_server.Billing.Tables.{BillingPlan}
use brainstorm_server.Billing.Session.{Exec, ok, reads, writes, ◌>>◌}

abbrev pub plan_matches : String → String → BillingPlan → Bool
plan_matches service_id plan_id p =
    str_eq p.flash_service_id service_id && str_eq p.flash_plan_id plan_id

abbrev pub first_plan : (BillingPlan → Bool) → List BillingPlan → Option BillingPlan
first_plan test [] = none
first_plan test (p ∷ ps) = if test p then some p else first_plan test ps

-- Not filtered by `is_active`, which says only whether the plan is sold.
abbrev pub get_billing_plan_on_db : String → String → Exec (Option BillingPlan)
get_billing_plan_on_db service_id plan_id =
    reads λ db. first_plan (plan_matches service_id plan_id) db.plans

-- Rows are inserted with rising ids, so the table's order is the order by id.
abbrev pub select_billing_plans_on_db : Bool → Exec (List BillingPlan)
select_billing_plans_on_db only_active =
    reads λ db. select (λ p. not only_active || p.is_active) db.plans

abbrev pub get_billing_plan_by_id_on_db : ℕ → Exec (Option BillingPlan)
get_billing_plan_by_id_on_db plan_id = reads λ db. first_plan (λ p. p.id == plan_id) db.plans

abbrev pub insert_billing_plan_on_db : String → String → ℕ → Bool → Exec BillingPlan
insert_billing_plan_on_db service_id plan_id scheduling_id is_active s =
    let plan : BillingPlan = record {
      id = s.plan_seq;
      flash_service_id = service_id;
      flash_plan_id = plan_id;
      scheduling_id = scheduling_id;
      is_active = is_active;
    } in
    (
      ok plan,
      record s { db = record s.db { plans = s.db.plans ++ plan ∷ [] }; plan_seq = suc s.plan_seq },
    )

-- The fields an admin may change; a field left out keeps its value.
pub record PlanChange : Type 0 where
  pub flash_service_id : Option String
  pub flash_plan_id : Option String
  pub scheduling_id : Option ℕ
  pub is_active : Option Bool

abbrev pub get_or {ℓ} : {A : Type ℓ} → Option A → A → A
get_or none d = d
get_or (some a) d = a

abbrev pub changed : PlanChange → BillingPlan → BillingPlan
changed c p = record {
  id = p.id;
  flash_service_id = get_or c.flash_service_id p.flash_service_id;
  flash_plan_id = get_or c.flash_plan_id p.flash_plan_id;
  scheduling_id = get_or c.scheduling_id p.scheduling_id;
  is_active = get_or c.is_active p.is_active;
}

abbrev pub update_billing_plan_on_db : ℕ → PlanChange → Exec (Option BillingPlan)
update_billing_plan_on_db plan_id c = do
  writes λ db. record db { plans = update (λ p. p.id == plan_id) (changed c) db.plans }
  get_billing_plan_by_id_on_db plan_id
