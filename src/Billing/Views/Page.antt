-- ===== src/Billing/Views/Page.antt =====
-- The pricing page of app/services/subscription_view_service.py: `list_billing_plans`. What a read of
-- the plans of one service gives is a parameter, and so is the address that `_checkout_url` makes with
-- Python's functions on URLs.
pub mod Rows
pub mod Listing
pub mod Sold
pub mod Answer
use brainstorm_server.Common.{
  ℕ, String, Bool, true, false, not, ◌&&◌, ◌||◌, Option, none, some, List, [], ◌∷◌, ◌++◌, map,
  str_eq, is_some, ◌==◌, if◌then◌else◌, ltb,
}
use Prim.Native.Nat.{Ordering}
use brainstorm_server.Common.Int.{ℤ, pos, leb_ℤ}
use brainstorm_server.Common.Text.{codes, compare_text}
use brainstorm_server.Common.Sorting.{sort_by}
use brainstorm_server.Table.Where.{select}
use brainstorm_server.Flash.Catalog.{FlashPlan}
use brainstorm_server.Flash.Catalog.Reads.{PlansRead, Found, plan_at, read_plans_for_services}
use brainstorm_server.Billing.Tables.{Db, Scheduling, BillingPlan}
use brainstorm_server.Billing.Session.{Exec, reads, pure, throw, flash_credential_error, ◌>>=◌}
use brainstorm_server.Billing.Repos.Nsec.{scheduling_with}
use brainstorm_server.Billing.Repos.Plans.{select_billing_plans_on_db}

pub record BillingPlanView : Type 0 where
  pub policy_id : ℕ
  pub policy_name : String
  pub schedule_interval_seconds : ℕ
  pub is_default : Bool
  pub plan_id : Option String
  pub plan_name : Option String
  pub description : Option String
  -- Never `none` in a row: a plan that is sold has an amount.
  pub amount_minor : Option ℤ
  pub currency : String
  pub billing_interval : Option String
  pub checkout_url : Option String
  pub features : Option (List String)
  pub not_included : Option (List String)

abbrev pub free_currency : String
free_currency = "USD"

-- The public policies by id, which is the table's order, the default before the others.
abbrev pub public_policies : List Scheduling → List Scheduling
public_policies rows =
    select (λ p. p.is_public && p.is_default) rows
    ++ select (λ p. p.is_public && not p.is_default) rows

abbrev pub select_public_scheduling_on_db : Exec (List Scheduling)
select_public_scheduling_on_db = reads λ db. public_policies db.schedulings

abbrev has_text : Option String → Bool
has_text none = false
has_text (some s) = not (str_eq s "")

-- A plan with a price that can be read, and a signup URL.
abbrev pub is_sellable : FlashPlan → Bool
is_sellable p = is_some p.amount_minor && has_text p.signup_url

abbrev pub if_sellable : Option FlashPlan → Option FlashPlan
if_sellable none = none
if_sellable (some p) = if is_sellable p then some p else none

-- The entry of `_sellable_flash_plans` for a mapping.
abbrev pub sellable_plan : Found → BillingPlan → Option FlashPlan
sellable_plan found m = if_sellable (plan_at m.flash_service_id m.flash_plan_id found)

abbrev pub add_sellable :
    BillingPlan → Option FlashPlan → List (BillingPlan × FlashPlan) → List (BillingPlan × FlashPlan)
add_sellable m none rest = rest
add_sellable m (some p) rest = (m, p) ∷ rest

unfoldable pub sellable : Found → List BillingPlan → List (BillingPlan × FlashPlan)
unfolding plan_at
sellable found [] = []
sellable found (m ∷ ms) = add_sellable m (sellable_plan found m) (sellable found ms)

abbrev is_lt : Ordering → Bool
is_lt Ordering.lt = true
is_lt _ = false

-- By `(sort_order, id)`.
abbrev pub sells_before : BillingPlan × FlashPlan → BillingPlan × FlashPlan → Bool
sells_before (m, a) (n, b) =
    not (leb_ℤ b.sort_order a.sort_order)
    || (leb_ℤ a.sort_order b.sort_order && is_lt (compare_text (codes a.id) (codes b.id)))

abbrev pub free_row : Scheduling → BillingPlanView
free_row policy = record {
  policy_id = policy.id;
  policy_name = policy.name;
  schedule_interval_seconds = policy.schedule_interval_seconds;
  is_default = policy.is_default;
  plan_id = none;
  plan_name = none;
  description = none;
  amount_minor = some (pos 0);
  currency = free_currency;
  billing_interval = none;
  checkout_url = none;
  features = none;
  not_included = none;
}

-- A mapping onto one of the policies.
abbrev pub maps_into : List Scheduling → BillingPlan → Bool
maps_into policies m = is_some (scheduling_with m.scheduling_id policies)

unfoldable pub is_mapped : List BillingPlan → ℕ → Bool
is_mapped [] policy_id = false
is_mapped (m ∷ ms) policy_id = (m.scheduling_id == policy_id) || is_mapped ms policy_id

unfoldable pub free_rows : List BillingPlan → List Scheduling → List BillingPlanView
unfolding is_mapped
free_rows active [] = []
free_rows active (p ∷ ps) =
    let rest = free_rows active ps in if is_mapped active p.id then rest else free_row p ∷ rest

-- `plans.sort(key=lambda row: not row.is_default)`
abbrev pub default_before : BillingPlanView → BillingPlanView → Bool
default_before a b = a.is_default && not b.is_default

abbrev service_id_of : BillingPlan → String
service_id_of m = m.flash_service_id

abbrev pub service_ids : List BillingPlan → List String
service_ids active = map service_id_of active

module _ (checkout_url : String → String) where
  abbrev url_of : Option String → Option String
  url_of none = none
  url_of (some url) = if str_eq url "" then none else some (checkout_url url)

  abbrev pub plan_row : Scheduling → FlashPlan → BillingPlanView
  plan_row policy flash = record {
    policy_id = policy.id;
    policy_name = policy.name;
    schedule_interval_seconds = policy.schedule_interval_seconds;
    is_default = policy.is_default;
    plan_id = some flash.id;
    plan_name = some flash.name;
    description = flash.description;
    amount_minor = flash.amount_minor;
    currency = flash.currency;
    billing_interval = flash.billing_interval;
    checkout_url = url_of flash.signup_url;
    features = flash.features;
    not_included = flash.not_included;
  }

  abbrev pub row_for : Option Scheduling → FlashPlan → List BillingPlanView → List BillingPlanView
  row_for none flash rest = rest
  row_for (some policy) flash rest = plan_row policy flash ∷ rest

  unfoldable pub plan_rows : List Scheduling → List (BillingPlan × FlashPlan) → List BillingPlanView
  plan_rows policies [] = []
  plan_rows policies ((m, flash) ∷ more) =
      row_for (scheduling_with m.scheduling_id policies) flash (plan_rows policies more)

  unfoldable pub page : Found → List Scheduling → List BillingPlan → List BillingPlanView
  page found policies active = sort_by default_before (
      free_rows active policies
      ++ plan_rows policies (sort_by sells_before (sellable found active)))

  abbrev pub page_of :
      List Scheduling → List BillingPlan → Option Found → Exec (List BillingPlanView)
  page_of policies active none = throw flash_credential_error
  page_of policies active (some found) = pure (page found policies active)

  -- `read_service_plans` is what each service's read gives.
  unfoldable pub list_billing_plans : (String → PlansRead) → Bool → Exec (List BillingPlanView)
  list_billing_plans read_service_plans flash_enabled =
      if flash_enabled
      then (do
        policies ← select_public_scheduling_on_db
        mappings ← select_billing_plans_on_db true
        let active = select (maps_into policies) mappings
        page_of policies active (read_plans_for_services read_service_plans (service_ids active)))
      else pure []
