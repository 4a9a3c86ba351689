-- ===== src/SelfMap/Offer.antt =====
-- What the Assistant offers and what of it is live, in app/services/self_map_build.py. A row of the
-- offer has its place in the list, which stands for the identity of the object.
use brainstorm_server.Common.{
  ℕ, zero, suc, ◌+◌, ◌-◌, ◌*◌, ◌/◌, Bool, true, false, not, ◌&&◌, ◌||◌, Option, none, some, List,
  [], ◌∷◌, ◌==◌, leb, ltb, length, String, str_eq, if◌then◌else◌,
}
use brainstorm_server.Common.Int.{ℤ, pos, negsuc}
use brainstorm_server.Common.Text.{Text}
use brainstorm_server.Flash.{Datetime}
use brainstorm_server.SelfMap.Keys.{
  Key, Probe, has_kind, score_kind, is_score_kind, is_list_kind, parse_key, covers, more_specific,
  winner_of,
}
use brainstorm_server.SelfMap.Duties.{Group, names, lower, is_unchecked, is_published_metric}

pub record OfferRow : Type 0 where
  pub key : Key
  pub relay : Text
  pub place : ℕ

abbrev pub row_key : OfferRow → Key
row_key r = r.key

-- The constructor of `Offer`: `none` is the `ValueError` for a key that does not parse.
abbrev pub add_row : Option Key → Text → ℕ → Option (List OfferRow) → Option (List OfferRow)
add_row (some key) relay place (some rows) =
    some (record { key = key; relay = relay; place = place } ∷ rows)
add_row _ relay place _ = none

unfoldable pub rows_from : ℕ → List (Text × Text) → Option (List OfferRow)
rows_from place [] = some []
rows_from place ((key, relay) ∷ rest) =
    add_row (parse_key key) relay place (rows_from (suc place) rest)

abbrev pub offer_of : List (Text × Text) → Option (List OfferRow)
offer_of rows = rows_from 0 rows

-- `kind in offer.kinds`
unfoldable pub offers_kind : ℕ → List OfferRow → Bool
offers_kind kind [] = false
offers_kind kind (r ∷ rs) = has_kind kind r.key.kinds || offers_kind kind rs

-- `Offer.answer`
abbrev pub answer : List OfferRow → Probe → Option OfferRow
answer rows p = winner_of row_key rows p

unfoldable pub covering_from : Option OfferRow → List OfferRow → Key → Option OfferRow
covering_from best [] key = best
covering_from best (r ∷ rs) key =
    covering_from (if covers r.key key && more_specific row_key r best then some r else best) rs key

-- `Offer.covering`
abbrev pub covering : List OfferRow → Key → Option OfferRow
covering rows key = covering_from none rows key

abbrev place_or : ℕ → Option OfferRow → ℕ
place_or n none = n
place_or n (some r) = r.place

-- `Offer.order_of`
unfoldable pub order_of : List OfferRow → Key → ℕ
order_of rows key = place_or (length rows) (covering rows key)

pub record ScoresUpkeep : Type 0 where
  pub status : String
  pub last_landed_at : Option ℤ

abbrev upkeep : String → Option ℤ → ScoresUpkeep
upkeep status last_landed_at = record { status = status; last_landed_at = last_landed_at }

abbrev second : ℕ
second = 1_000_000

-- The microseconds from `datetime.min` to 1970.
abbrev unix_epoch : ℕ
unix_epoch = 62_135_596_800 * second

-- `int(t.timestamp())`, which rounds towards zero.
abbrev negated : ℕ → ℤ
negated zero = pos 0
negated (suc n) = negsuc n

unfoldable pub int_timestamp : Datetime → ℤ
int_timestamp t =
    if leb unix_epoch t
    then pos ((t - unix_epoch) / second)
    else negated ((unix_epoch - t) / second)

abbrev kept_up : Option Datetime → ℕ → Datetime → ScoresUpkeep
kept_up none interval now = upkeep "not-landed" none
kept_up (some last) interval now =
    if ltb (last + 2 * interval * second) now
    then upkeep "upkeep-stopped" (some (int_timestamp last))
    else upkeep "live" none

-- An interval that is not positive reads as zero.
unfoldable pub scores_upkeep : Option Datetime → Option ℕ → Datetime → ScoresUpkeep
scores_upkeep last_published none now = upkeep "not-scheduled" none
scores_upkeep last_published (some interval) now =
    if interval == 0 then upkeep "not-scheduled" none else kept_up last_published interval now

unfoldable pub asks_for_scores : List Group → Text → Bool
asks_for_scores [] assistant = false
asks_for_scores (g ∷ gs) assistant =
    (names (lower assistant) g && has_kind score_kind g.key.kinds) || asks_for_scores gs assistant

pub record Live : Type 0 where
  pub live : Bool
  pub relay : Option Text
  pub reason : Option String
  pub last_landed_at : Option ℤ

abbrev pub not_offered : Live
not_offered = record { live = false; relay = none; reason = none; last_landed_at = none }

abbrev not_live : Text → String → Option ℤ → Live
not_live relay reason last_landed_at = record {
  live = false;
  relay = some relay;
  reason = some reason;
  last_landed_at = last_landed_at;
}

abbrev live_at : Text → Live
live_at relay = record { live = true; relay = some relay; reason = none; last_landed_at = none }

unfoldable pub live_score : Probe → Text → ScoresUpkeep → Live
live_score p relay scores =
    if not (p.kind == score_kind && is_published_metric p.scope)
    then not_live relay "not-published-here" none
    else if str_eq scores.status "live"
    then live_at relay
    else not_live relay scores.status scores.last_landed_at

-- The probe is live, or not and why, by the row that answers it.
unfoldable pub live_by : Probe → ScoresUpkeep → Option OfferRow → Live
live_by p scores none = not_offered
live_by p scores (some row) =
    if is_unchecked p.scope
    then not_live row.relay "unchecked" none
    else if is_score_kind p.kind
    then live_score p row.relay scores
    else if is_list_kind p.kind
    then not_live row.relay "not-scheduled" none
    else not_live row.relay "not-published-here" none

abbrev pub evaluate_live : Probe → List OfferRow → ScoresUpkeep → Live
evaluate_live p rows scores = live_by p scores (answer rows p)
