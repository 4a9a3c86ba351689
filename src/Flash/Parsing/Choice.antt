-- ===== src/Flash/Parsing/Choice.antt =====
-- `_choose_subscription` of app/core/flash.py: which of the subscriptions under one reference decides.
pub mod Entitling
pub mod Longest
use brainstorm_server.Common.{
  String, Bool, true, false, ltb, is_in, Option, none, some, List, [], ◌∷◌, if◌then◌else◌,
}
use brainstorm_server.Flash.{Datetime, entitling_statuses}
use brainstorm_server.Flash.Parsing.{
  Json, Items, nil, item, Fields, text, array, object, Library, Read, read, overflow_error,
  type_error, ◌>>=◌, get, parse_flash_timestamp,
}

-- The rows that are dicts.
abbrev add_row : Json → List Fields → List Fields
add_row (object row) rows = row ∷ rows
add_row _ rows = rows

unfoldable pub rows_of : Items → List Fields
rows_of nil = []
rows_of (item v vs) = add_row v (rows_of vs)

abbrev is_entitling_status : Json → Read Bool
is_entitling_status (text s) = read (is_in s entitling_statuses)
is_entitling_status (array vs) = type_error
is_entitling_status (object fs) = type_error
is_entitling_status _ = read false

abbrev pub is_entitling : Fields → Read Bool
is_entitling row = is_entitling_status (get "status" row)

unfoldable pub entitling_rows : List Fields → Read (List Fields)
entitling_rows [] = read []
entitling_rows (r ∷ rs) = do
  entitles ← is_entitling r
  rest ← entitling_rows rs
  read (if entitles then r ∷ rest else rest)

-- `[...] or rows`
abbrev pub or_rows : List Fields → List Fields → List Fields
or_rows [] rows = rows
or_rows (r ∷ rs) rows = r ∷ rs

unfoldable pub live_rows : List Fields → Read (List Fields)
live_rows rows = entitling_rows rows >>= λ es. read (or_rows es rows)

module _ (lib : Library) where
  -- `datetime.min` where there is no end.
  abbrev or_first : Option Datetime → Datetime
  or_first none = 0
  or_first (some t) = t

  unfoldable pub runs_until : Fields → Read Datetime
  runs_until row =
      parse_flash_timestamp lib (get "currentPeriodEnd" row) true >>= λ t. read (or_first t)

  -- `max(rows, key=_runs_until)` from the best so far, which keeps the first of equals.
  unfoldable pub longest_from : Fields → Datetime → List Fields → Read Fields
  longest_from best t [] = read best
  longest_from best t (r ∷ rs) =
      runs_until r >>= λ u. longest_from (if ltb t u then r else best) (if ltb t u then u else t) rs

  unfoldable pub longest : List Fields → Read (Option Fields)
  longest [] = read none
  longest (r ∷ rs) = runs_until r >>= λ t. longest_from r t rs >>= λ best. read (some best)

  unfoldable pub choose_subscription : Items → Read (Option Fields)
  choose_subscription subscriptions = live_rows (rows_of subscriptions) >>= longest
