-- ===== src/Flash/Catalog/Cache.antt =====
-- app/core/flash_plan_cache.py: the plans of one service, from Redis where possible. A read is given
-- the cache as it is, the cache as it is once the lock on the service is held, and what Flash answers. Redis
-- answers during the whole of a read, or not at all, and gives back what was stored.
pub mod Outage
pub mod Apart
use brainstorm_server.Common.{
  ℕ, ◌+◌, String, Bool, Option, none, some, List, [], ◌∷◌, map, str_eq, ltb, if◌then◌else◌,
}
use brainstorm_server.Flash.{Datetime}
use brainstorm_server.Flash.Client.{Body, found, absent, credential_error, declined, unavailable}
use brainstorm_server.Flash.Parsing.{Json, array, Fields, Library, get}
use brainstorm_server.Flash.Parsing.Choice.{rows_of}
use brainstorm_server.Flash.Catalog.{FlashPlan, parse_plan}
use brainstorm_server.Flash.Catalog.Reads.{
  PlansRead, plans_found, plans_unavailable, service_missing, credentials_refused, Found, put_read,
  and_then,
}

-- The two entries of each service. The short-lived one has the time that it expires at.
pub record Cache : Type 0 where
  pub fresh : String → Option (Datetime × List Fields)
  pub last_good : String → Option (List Fields)

-- What `fetch_service_plans_raw` ends with.
pub data ServiceAnswer : Type 0 where
  body : Fields → ServiceAnswer
  unreadable missing refused : ServiceAnswer

-- A read never ends as `declined`.
abbrev of_body : Body Fields → ServiceAnswer
of_body (found b) = body b
of_body absent = missing
of_body credential_error = refused
of_body (declined n) = unreadable
of_body unavailable = unreadable

unfoldable pub fetch_service_plans_raw : String → Body Fields → ServiceAnswer
fetch_service_plans_raw service_id b = if str_eq service_id "" then unreadable else of_body b

-- Its entries that are dicts.
abbrev dict_rows : Json → List Fields
dict_rows (array vs) = rows_of vs
dict_rows _ = []

abbrev pub plans_in : Fields → List Fields
plans_in b = dict_rows (get "plans" b)

-- `ttl` is how long the short-lived copy lasts, `up` whether Redis answers.
module _ (lib : Library) (ttl : ℕ) (up : Bool) where
  abbrev pub parsed_rows : List Fields → List FlashPlan
  parsed_rows rows = map (parse_plan lib) rows

  abbrev pub within : Datetime → Option (Datetime × List Fields) → Option (List FlashPlan)
  within now none = none
  within now (some (until, rows)) = if ltb now until then some (parsed_rows rows) else none

  unfoldable pub load_fresh : String → Datetime → Cache → Option (List FlashPlan)
  load_fresh service_id now cache = if up then within now (cache.fresh service_id) else none

  abbrev pub parsed_option : Option (List Fields) → Option (List FlashPlan)
  parsed_option none = none
  parsed_option (some rows) = some (parsed_rows rows)

  unfoldable pub load_last_good : String → Cache → Option (List FlashPlan)
  load_last_good service_id cache = if up then parsed_option (cache.last_good service_id) else none

  unfoldable pub store : String → List Fields → Datetime → Cache → Cache
  store service_id rows now cache =
      if up
      then record {
        fresh = λ k. if str_eq k service_id then some (now + ttl, rows) else cache.fresh k;
        last_good = λ k. if str_eq k service_id then some rows else cache.last_good k;
      }
      else cache

  abbrev pub found_or_unavailable : Option (List FlashPlan) → PlansRead
  found_or_unavailable none = plans_unavailable
  found_or_unavailable (some plans) = plans_found plans

  -- `_refresh`
  unfoldable pub refresh : String → Datetime → ServiceAnswer → Cache → PlansRead × Cache
  refresh service_id now (body b) cache =
      (plans_found (parsed_rows (plans_in b)), store service_id (plans_in b) now cache)
  refresh service_id now unreadable cache =
      (found_or_unavailable (load_last_good service_id cache), cache)
  refresh service_id now missing cache = (service_missing, cache)
  refresh service_id now refused cache = (credentials_refused, cache)

  abbrev pub or_then {ℓ} : {A : Type ℓ} → Option (List FlashPlan) → A → (List FlashPlan → A) → A
  or_then none other f = other
  or_then (some plans) other f = f plans

  -- `held` is the cache once the lock is held.
  unfoldable pub read_service_plans :
      String → Bool → Datetime → ServiceAnswer → Cache → Cache → PlansRead × Cache
  read_service_plans service_id fresh now answer cache held =
      if fresh
      then refresh service_id now answer held
      else or_then (load_fresh service_id now cache)
          (or_then (load_fresh service_id now held) (refresh service_id now answer held)
            (λ plans. (plans_found plans, held)))
          (λ plans. (plans_found plans, cache))

  -- `read_plans_for_services` on the cache, with no other request in between.
  unfoldable pub read_services_cached :
      Datetime → (String → ServiceAnswer) → List String → Found → Cache → Option Found
  read_services_cached now ask [] so_far cache = some so_far
  read_services_cached now ask (s ∷ ss) so_far cache =
      let step : PlansRead × Cache = read_service_plans s Bool.false now (ask s) cache cache in
      and_then (put_read s step.0 so_far) λ more. read_services_cached now ask ss more step.1
