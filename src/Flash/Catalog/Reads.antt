-- ===== src/Flash/Catalog/Reads.antt =====
-- `read_plans_for_services` of app/core/flash_plan_cache.py: the plans of several services.
pub mod Offers
use brainstorm_server.Common.{
  String, ◌&&◌, Option, none, some, List, [], ◌∷◌, str_eq, if◌then◌else◌,
}
use brainstorm_server.Flash.Catalog.{FlashPlan}

-- `read_service_plans`: the plans, or one of its exceptions. The first two cost the service its plans.
pub data PlansRead : Type 0 where
  plans_found : List FlashPlan → PlansRead
  plans_unavailable service_missing credentials_refused : PlansRead

-- `plans[(service_id, plan.id)] = plan`, the entry of a key being the last that was set.
abbrev pub Found : Type 0
Found = List (String × FlashPlan)

unfoldable pub put_plans : String → List FlashPlan → Found → Found
put_plans service_id [] found = found
put_plans service_id (p ∷ ps) found = put_plans service_id ps ((service_id, p) ∷ found)

-- `none` is the `FlashCredentialError` that nothing catches.
abbrev pub put_read : String → PlansRead → Found → Option Found
put_read service_id (plans_found ps) found = some (put_plans service_id ps found)
put_read service_id plans_unavailable found = some found
put_read service_id service_missing found = some found
put_read service_id credentials_refused found = none

unfoldable pub plan_at : String → String → Found → Option FlashPlan
plan_at service_id plan_id [] = none
plan_at service_id plan_id ((s, p) ∷ found) =
    if str_eq s service_id && str_eq p.id plan_id then some p else plan_at service_id plan_id found

abbrev pub and_then : Option Found → (Found → Option Found) → Option Found
and_then none f = none
and_then (some found) f = f found

module _ (read_service_plans : String → PlansRead) where
  -- `read_plans_for_services`. A service that is named twice is read as it was before.
  unfoldable pub read_services_from : List String → Found → Option Found
  unfolding put_plans
  read_services_from [] found = some found
  read_services_from (s ∷ ss) found =
      and_then (put_read s (read_service_plans s) found) λ more. read_services_from ss more

  abbrev pub read_plans_for_services : List String → Option Found
  read_plans_for_services service_ids = read_services_from service_ids []
