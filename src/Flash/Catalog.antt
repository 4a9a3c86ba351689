-- ===== src/Flash/Catalog.antt =====
-- The plans and services of Flash's catalogue in app/core/flash.py, parsed.
pub mod Reads
pub mod Cache
mod Tests
use brainstorm_server.Common.{
  String, Bool, true, false, Option, none, some, List, [], ◌∷◌, str_eq, if◌then◌else◌,
}
use brainstorm_server.Common.Int.{ℤ, pos}
use brainstorm_server.Flash.Parsing.{
  Json, null, boolean, whole, text, array, object, Items, nil, item, Fields, Library, get, text_of,
  minor_units, str_or_empty,
}

pub record FlashPlan : Type 0 where
  pub id : String
  pub service_id : String
  pub name : String
  pub description : Option String
  pub amount_minor : Option ℤ
  pub currency : String
  pub billing_interval : Option String
  pub sort_order : ℤ
  pub features : Option (List String)
  pub not_included : Option (List String)
  pub status : String
  pub signup_url : Option String

pub record FlashService : Type 0 where
  pub id : String
  pub name : String
  pub description : Option String
  pub signup_url : Option String

-- `isinstance(sort_order, int)`, which holds of a `bool` too.
abbrev sort_order_of : Json → ℤ
sort_order_of (whole n) = n
sort_order_of (boolean true) = pos 1
sort_order_of _ = pos 0

abbrev some_lines : List String → Option (List String)
some_lines [] = none
some_lines (l ∷ ls) = some (l ∷ ls)

module _ (lib : Library) where
  abbrev add_line : Json → List String → List String
  add_line (text s) rest = if str_eq (lib.strip s) "" then rest else lib.strip s ∷ rest
  add_line _ rest = rest

  unfoldable pub lines_in : Items → List String
  lines_in nil = []
  lines_in (item v vs) = add_line v (lines_in vs)

  -- `_lines`
  unfoldable pub lines : Json → Option (List String)
  lines (array vs) = some_lines (lines_in vs)
  lines _ = none

  unfoldable pub parse_plan : Fields → FlashPlan
  parse_plan raw = record {
    id = str_or_empty lib (get "id" raw);
    service_id = str_or_empty lib (get "serviceId" raw);
    name = str_or_empty lib (get "name" raw);
    description = text_of lib (get "description" raw);
    amount_minor = minor_units lib (get "amount" raw);
    currency = str_or_empty lib (get "currency" raw);
    billing_interval = text_of lib (get "billingInterval" raw);
    sort_order = sort_order_of (get "sortOrder" raw);
    features = lines (get "features" raw);
    not_included = lines (get "notIncluded" raw);
    status = str_or_empty lib (get "status" raw);
    signup_url = text_of lib (get "signupUrl" raw);
  }

  unfoldable pub parse_service : Fields → FlashService
  parse_service raw = record {
    id = str_or_empty lib (get "id" raw);
    name = str_or_empty lib (get "name" raw);
    description = text_of lib (get "description" raw);
    signup_url = text_of lib (get "signupUrl" raw);
  }

  abbrev add_service : Json → List FlashService → List FlashService
  add_service (object raw) rest = parse_service raw ∷ rest
  add_service _ rest = rest

  unfoldable pub services_in : Items → List FlashService
  services_in nil = []
  services_in (item v vs) = add_service v (services_in vs)

  -- The services that a body of `GET /services` lists.
  unfoldable pub services_of : Fields → List FlashService
  services_of body = elim (get "services" body) [ array vs ↦ services_in vs | _ ↦ [] ]
