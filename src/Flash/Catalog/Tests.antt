-- ===== src/Flash/Catalog/Tests.antt =====
-- The plans cache at concrete inputs.
use brainstorm_server.Common.{
  ◌≡◌, refl, String, true, false, none, some, [], ◌∷◌, In, ◌⊎◌, str_eq, if◌then◌else◌,
}
use brainstorm_server.Flash.Parsing.{text, array, object, nil, item, Fields, end, field, Library}
use brainstorm_server.Flash.Catalog.Reads.{credentials_refused, Found}
use brainstorm_server.Flash.Catalog.Reads.Offers.{OwnOffers}
use brainstorm_server.Flash.Catalog.Cache.{
  Cache, ServiceAnswer, body, unreadable, read_service_plans, read_services_cached,
}
use brainstorm_server.Flash.Catalog.Cache.Outage.{read_service_plans-outage}
use brainstorm_server.Flash.Catalog.Cache.Apart.{alone, read_services_cached-apart}

abbrev readers : Library
readers = record {
  strip = λ s. s;
  str_of = λ v. "";
  int_of = λ s. none;
  datetime_of = λ s. none;
  is_date = λ s. false;
}

abbrev offered : Fields
offered =
    field "plans" (array (item (object (field "id" (text "pro") end)) (item (text "no plan") nil)))
      end

abbrev empty : Cache
empty = record { fresh = λ s. none; last_good = λ s. none }

-- An hour after the copy of a minute expired.
read_service_plans-outage_example :
    (read_service_plans readers 60 true "svc" false 3700 unreadable
      (read_service_plans readers 60 true "svc" true 40 (body offered) empty empty).1
      (read_service_plans readers 60 true "svc" true 40 (body offered) empty empty).1).0
    ≡ (read_service_plans readers 60 true "svc" true 40 (body offered) empty empty).0
read_service_plans-outage_example =
    read_service_plans-outage readers 60 "svc" offered 40 3700 false empty

-- Flash answers for one service, and cannot be read for the other.
abbrev answers : String → ServiceAnswer
answers s = if str_eq s "a" then body offered else unreadable

read_services_cached-apart_example :
    ((s : String) × In s ("a" ∷ "b" ∷ [])
      × (alone readers 60 true 40 answers empty s ≡ credentials_refused)
      × (read_services_cached readers 60 true 40 answers ("a" ∷ "b" ∷ []) [] empty ≡ none))
    ⊎ ((plans : Found) × (read_services_cached readers 60 true 40 answers ("a" ∷ "b" ∷ []) [] empty
          ≡ some plans)
        × OwnOffers (alone readers 60 true 40 answers empty) ("a" ∷ "b" ∷ []) plans)
read_services_cached-apart_example =
    read_services_cached-apart readers 60 true 40 answers empty ("a" ∷ "b" ∷ [])
      ((refl, tt), (tt, tt))
