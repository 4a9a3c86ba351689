-- ===== src/SelfMap/Listing.antt =====
-- `build_should_say` of app/services/self_map_build.py: the self-entries of the Assistant's Map.
pub mod Claims
pub mod Truthful
use brainstorm_server.Common.{
  ℕ, Bool, true, false, not, ◌&&◌, ◌||◌, Option, none, some, List, [], ◌∷◌, ◌++◌, map, ◌==◌, ltb,
  if◌then◌else◌,
}
use brainstorm_server.Common.Sorting.{sort_by}
use brainstorm_server.Common.Text.{Text, codes, text_eq}
use brainstorm_server.SelfMap.Keys.{
  metric, Key, Probe, colon, probe_eq, score_kind, is_all, matches, compare_keys, is_lt, meet_of,
  parse_key, winner_of,
}
use brainstorm_server.SelfMap.Probes.{published_score_metrics, probe}
use brainstorm_server.SelfMap.Duties.{Group, Duty, names, lower}
use brainstorm_server.SelfMap.Offer.{OfferRow, Live, offers_kind, covering, order_of}

-- A self-entry: a key and the relay that it is kept up to date at.
abbrev pub Entry : Type 0
Entry = Key × Text

abbrev pub entry_key : Entry → Key
entry_key e = e.0

-- `live.get(probe)` of a dict from probes.
abbrev pub Lives : Type 0
Lives = List (Probe × Live)

unfoldable pub live_of : Lives → Probe → Option Live
live_of [] p = none
live_of ((q, l) ∷ rest) p = let later = live_of rest p in if probe_eq q p then some l else later

-- `duties.get(probe)`
unfoldable pub duty_at : List Duty → Probe → Option Duty
duty_at [] p = none
duty_at (d ∷ ds) p = let later = duty_at ds p in if probe_eq d.probe p then some d else later

abbrev pub has : Text → List Entry → Bool
has norm [] = false
has norm (e ∷ es) = text_eq e.0.norm norm || has norm es

abbrev pub relay_is : Text → Option Text → Bool
relay_is relay none = false
relay_is relay (some r) = text_eq r relay

abbrev pub is_live_at : Text → Option Live → Bool
is_live_at relay none = false
is_live_at relay (some l) = l.live && relay_is relay l.relay

-- `winner_of([*chosen, candidate]) is candidate`: the candidate is marked to tell it apart.
abbrev pub marked : Entry → Key × Bool
marked e = (e.0, false)

abbrev pub mark_key : Key × Bool → Key
mark_key m = m.0

abbrev pub is_marked : Option (Key × Bool) → Bool
is_marked none = false
is_marked (some m) = m.1

unfoldable pub would_win : Key → List Entry → Probe → Bool
would_win candidate chosen p =
    is_marked (winner_of mark_key (map marked chosen ++ (candidate, true) ∷ []) p)

abbrev pub is_group_of : Text → Option Group → Bool
is_group_of norm none = false
is_group_of norm (some g) = text_eq g.key.norm norm

-- A duty is not won by the candidate, is won and not live at the relay, or is won and live there.
pub data Weigh : Type 0 where
  passed wrong spoken : Weigh

unfoldable pub weigh : Lives → Key → Text → List Entry → Duty → Weigh
weigh live candidate relay chosen d =
    if not d.duty || not (matches candidate d.probe)
    then passed
    else if not (would_win candidate chosen d.probe)
    then passed
    else if is_live_at relay (live_of live d.probe)
    then spoken
    else wrong

unfoldable pub valid_from : Lives → Key → Text → List Entry → Bool → List Duty → Bool
valid_from live candidate relay chosen speaks [] = speaks
valid_from live candidate relay chosen speaks (d ∷ ds) =
    elim (weigh live candidate relay chosen d) [
      | passed ↦ valid_from live candidate relay chosen speaks ds
      | wrong ↦ false
      | spoken ↦ valid_from live candidate relay chosen true ds
    ]

module _ (who : Text) (duties : List Duty) (live : Lives) (offer : List OfferRow) where
  abbrev by_row : Key → List Entry → Option OfferRow → Bool × List Entry
  by_row candidate chosen none = (false, chosen)
  by_row candidate chosen (some row) =
      if valid_from live candidate row.relay chosen false duties
      then (true, chosen ++ (candidate, row.relay) ∷ [])
      else (false, chosen)

  unfoldable pub try_key : Option Key → List Entry → Bool × List Entry
  unfolding by_row
  try_key none chosen = (false, chosen)
  try_key (some candidate) chosen =
      if has candidate.norm chosen
      then (false, chosen)
      else by_row candidate chosen (covering offer candidate)

  -- The metric is a duty that the reader's key wins.
  abbrev won_by : Key → Option Duty → Bool
  won_by k none = false
  won_by k (some d) = d.duty && is_group_of k.norm d.winner

  unfoldable pub try_metrics : Key → List Text → List Entry → List Entry
  try_metrics k [] chosen = chosen
  try_metrics k (m ∷ ms) chosen = try_metrics k ms (
      if won_by k (duty_at duties (probe score_kind (metric m)))
      then (try_key (parse_key (codes "30382:" ++ m)) chosen).1
      else chosen)

  -- `meet.kinds != (SCORE_KIND,)`
  abbrev is_score_only : List ℕ → Bool
  is_score_only (k ∷ []) = k == score_kind
  is_score_only _ = false

  unfoldable pub try_meet : Key → Key → List Entry → List Entry
  unfolding try_key
  try_meet k meet chosen =
      let tried : Bool × List Entry =
        if text_eq meet.norm k.norm then (false, chosen) else try_key (some meet) chosen in
      if tried.0
      then tried.1
      else if is_score_only meet.kinds && is_all meet.scope
      then try_metrics k published_score_metrics tried.1
      else tried.1

  unfoldable pub try_meets : Key → List Key → List Entry → List Entry
  try_meets k [] chosen = chosen
  try_meets k (m ∷ ms) chosen = try_meets k ms (try_meet k m chosen)

  abbrev has_norm : Text → List Key → Bool
  has_norm norm [] = false
  has_norm norm (k ∷ ks) = text_eq k.norm norm || has_norm norm ks

  abbrev add_meet : Option Key → List Key → List Key
  add_meet none meets = meets
  add_meet (some m) meets = if has_norm m.norm meets then meets else meets ++ m ∷ []

  unfoldable pub meets_from : Key → List ℕ → List Key → List Key
  meets_from k [] meets = meets
  meets_from k (kind ∷ kinds) meets =
      meets_from k kinds (if offers_kind kind offer then add_meet (meet_of k kind) meets else meets)

  abbrev pub most_specific_first : List Key → List Key
  most_specific_first = sort_by (λ (a b : Key). is_lt (compare_keys a b))

  unfoldable pub list_key : Key → List Entry → List Entry
  unfolding try_key
  list_key k chosen =
      let tried : Bool × List Entry =
        if has k.norm chosen then (true, chosen) else try_key (some k) chosen in
      if tried.0
      then tried.1
      else try_meets k (most_specific_first (meets_from k k.kinds [])) tried.1

  unfoldable pub list_keys : List Key → List Entry → List Entry
  list_keys [] chosen = chosen
  list_keys (k ∷ ks) chosen = list_keys ks (list_key k chosen)

  unfoldable pub keys_naming : List Group → List Key
  keys_naming [] = []
  keys_naming (g ∷ gs) = let rest = keys_naming gs in if names who g then g.key ∷ rest else rest

  abbrev in_offer_order : Entry → Entry → Bool
  in_offer_order a b = ltb (order_of offer a.0) (order_of offer b.0)

  unfoldable pub build_should_say : List Group → List Entry
  build_should_say groups =
      sort_by in_offer_order (list_keys (most_specific_first (keys_naming groups)) [])
