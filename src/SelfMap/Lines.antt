-- ===== src/SelfMap/Lines.antt =====
-- What the Assistant's Map should list and why, in app/services/self_map_build.py: `duty_lines` and
-- `evaluate_self_map`. A group is told from others by its key's spelling, of which there is one each.
pub mod Check
use Prim.Native.Nat.{Ordering}
use brainstorm_server.Common.{
  ℕ, Bool, true, false, not, ◌&&◌, ◌||◌, Option, none, some, is_some, List, [], ◌∷◌, ◌++◌, map,
  ◌==◌, String, str_eq, opt_str_eq, if◌then◌else◌,
}
use brainstorm_server.Common.Int.{ℤ, pos, negsuc}
use brainstorm_server.Common.Text.{Text, text_eq}
use brainstorm_server.SelfMap.Keys.{
  Key, Probe, has_kind, matches, covers, compare_keys, is_lt, meet_of, profiles_spelling, winner_of,
}
use brainstorm_server.SelfMap.Probes.{build_probes}
use brainstorm_server.SelfMap.Duties.{Group, Duty, Tag, names, lower, duties_of}
use brainstorm_server.SelfMap.Offer.{
  OfferRow, ScoresUpkeep, Live, not_offered, answer, evaluate_live, offer_of,
}
use brainstorm_server.SelfMap.Listing.{
  Entry, entry_key, Lives, live_of, relay_is, is_group_of, build_should_say,
}

pub record DutyLine : Type 0 where
  pub key : Text
  pub status : String
  pub relay : Option Text
  pub reason : Option String
  pub last_landed_at : Option ℤ
  pub entries : List (Text × Text)

abbrev no_entries : List (Text × Text) → Bool
no_entries [] = true
no_entries (e ∷ es) = false

abbrev line : Text → String → Option Text → Option String → Option ℤ → DutyLine
line key status relay reason last_landed_at = record {
  key = key;
  status = status;
  relay = relay;
  reason = reason;
  last_landed_at = last_landed_at;
  entries = [];
}

-- The kinds of the first that the second has too.
unfoldable pub common_kinds : List ℕ → List ℕ → List ℕ
common_kinds [] other = []
common_kinds (k ∷ ks) other =
    let rest = common_kinds ks other in if has_kind k other then k ∷ rest else rest

abbrev only_meet : Key → List ℕ → Option Key
only_meet key (kind ∷ []) = meet_of key kind
only_meet key _ = none

abbrev meet_spelling : Key → Option Key → Text
meet_spelling key none = key.norm
meet_spelling key (some meet) =
    if profiles_spelling meet && not (profiles_spelling key) then key.norm else meet.norm

-- `_line_key`
unfoldable pub line_key : Key → Key → Text
unfolding common_kinds
line_key key row =
    if covers row key
    then key.norm
    else if covers key row
    then row.norm
    else meet_spelling key (only_meet key (common_kinds key.kinds row.kinds))

-- `live[probe]`, of a dict that has every probe.
abbrev or_not_offered : Option Live → Live
or_not_offered none = not_offered
or_not_offered (some l) = l

abbrev live_here : Lives → Probe → Live
live_here live p = or_not_offered (live_of live p)

unfoldable pub on_duty : List Duty → List Probe
on_duty [] = []
on_duty (d ∷ ds) = let rest = on_duty ds in if d.duty then d.probe ∷ rest else rest

unfoldable pub first_down : Lives → List Probe → Option Live
first_down live [] = none
first_down live (p ∷ ps) =
    let rest = first_down live ps in
    if (live_here live p).live then rest else some (live_here live p)

abbrev same_relay : Option Text → Option Text → Bool
same_relay none none = true
same_relay (some a) (some b) = text_eq a b
same_relay _ _ = false

abbrev has_entry : Text → Text → List (Text × Text) → Bool
has_entry norm relay [] = false
has_entry norm relay ((n, r) ∷ es) = (text_eq n norm && text_eq r relay) || has_entry norm relay es

abbrev add_entry : Entry → List (Text × Text) → List (Text × Text)
add_entry (k, relay) es = if has_entry k.norm relay es then es else es ++ (k.norm, relay) ∷ []

-- The self-entries that list the live probes; none where one is not listed at its relay.
unfoldable pub listed_by : Lives → List Entry → List Probe → List (Text × Text) → List (Text × Text)
listed_by live should [] es = es
listed_by live should (p ∷ ps) es = elim (winner_of entry_key should p) [
  | none ↦ []
  | some e ↦ elim (same_relay (some e.1) (live_here live p).relay) [
    | true ↦ listed_by live should ps (add_entry e es)
    | false ↦ []
  ]
]

abbrev first_probe_live : Lives → List Duty → Live
first_probe_live live [] = not_offered
first_probe_live live (d ∷ ds) = live_here live d.probe

abbrev idle_reason : Live → Option String
idle_reason l = if l.live then some "nothing-to-publish" else l.reason

abbrev down_line : Text → Text → Option Live → Option DutyLine
down_line key relay none = none
down_line key relay (some l) = some (line key "offered" (some relay) l.reason l.last_landed_at)

abbrev or_line : Option DutyLine → DutyLine → DutyLine
or_line none l = l
or_line (some k) l = k

abbrev live_line : Lives → List Entry → Text → Text → List Duty → List Probe → DutyLine
live_line live should key relay part [] =
    line key "offered" (some relay) (idle_reason (first_probe_live live part)) none
live_line live should key relay part (p ∷ ps) =
    or_line (down_line key relay (first_down live (p ∷ ps)))
      (record (line key "live" (some relay) none none) {
        entries = listed_by live should (p ∷ ps) [];
      })

-- `_part_line`
unfoldable pub part_line : Key → OfferRow → List Duty → Lives → List Entry → DutyLine
unfolding on_duty
part_line key row part live should =
    live_line live should (line_key key row.key) row.relay part (on_duty part)

unfoldable pub won_by_group : Text → List Duty → List Duty
won_by_group norm [] = []
won_by_group norm (d ∷ ds) =
    let rest = won_by_group norm ds in if is_group_of norm d.winner then d ∷ rest else rest

-- `offer.answer(probe) is row`
abbrev answered_by : OfferRow → Option OfferRow → Bool
answered_by row none = false
answered_by row (some r) = r.place == row.place

module _ (offer : List OfferRow) (live : Lives) (should : List Entry) (who : Text) where
  unfoldable pub part_of : OfferRow → List Duty → List Duty
  part_of row [] = []
  part_of row (d ∷ ds) =
      let rest = part_of row ds in if answered_by row (answer offer d.probe) then d ∷ rest else rest

  abbrev part_lines : Key → OfferRow → List Duty → List DutyLine
  part_lines key row [] = []
  part_lines key row (d ∷ ds) = part_line key row (d ∷ ds) live should ∷ []

  unfoldable pub row_lines : Key → List Duty → List OfferRow → List DutyLine
  unfolding part_of
  row_lines key won [] = []
  row_lines key won (row ∷ rows) = part_lines key row (part_of row won) ++ row_lines key won rows

  unfoldable pub any_not_offered : List Duty → Bool
  any_not_offered [] = false
  any_not_offered (d ∷ ds) = (d.duty && not (is_some (answer offer d.probe))) || any_not_offered ds

  -- The groups naming only others whose more specific keys win some of the key.
  abbrev takes_from : Key → Probe → Option Group → Bool
  takes_from key p none = false
  takes_from key p (some w) =
      not (text_eq w.key.norm key.norm)
      && (not (names who w) && (matches key p && is_lt (compare_keys w.key key)))

  abbrev has_group : Text → List Group → Bool
  has_group norm [] = false
  has_group norm (g ∷ gs) = text_eq g.key.norm norm || has_group norm gs

  abbrev add_group : Option Group → List Group → List Group
  add_group none gs = gs
  add_group (some w) gs = if has_group w.key.norm gs then gs else gs ++ w ∷ []

  unfoldable pub elsewhere_from : Key → List Duty → List Group → List Group
  elsewhere_from key [] gs = gs
  elsewhere_from key (d ∷ ds) gs =
      elsewhere_from key ds (if takes_from key d.probe d.winner then add_group d.winner gs else gs)

  -- `line not in lines`, of a line that has a key and a status only.
  abbrev is_plain : DutyLine → Bool
  is_plain l =
      not (is_some l.relay)
      && (not (is_some l.reason) && (not (is_some l.last_landed_at) && no_entries l.entries))

  unfoldable pub has_line : Text → String → List DutyLine → Bool
  has_line key status [] = false
  has_line key status (l ∷ ls) =
      (text_eq l.key key && (str_eq l.status status && is_plain l)) || has_line key status ls

  unfoldable pub add_elsewhere : List Group → List DutyLine → List DutyLine
  add_elsewhere [] lines = lines
  add_elsewhere (w ∷ ws) lines = add_elsewhere ws (
      if has_line w.key.norm "elsewhere" lines
      then lines
      else lines ++ line w.key.norm "elsewhere" none none none ∷ [])

  unfoldable pub group_lines : List Duty → Group → List DutyLine → List DutyLine
  unfolding row_lines any_not_offered elsewhere_from add_elsewhere
  group_lines every g lines =
      let key = g.key in
      let won = won_by_group key.norm every in
      let offered = lines ++ row_lines key won offer in
      let missing =
        if any_not_offered won then line key.norm "not-offered" none none none ∷ [] else [] in
      add_elsewhere (elsewhere_from key every []) (offered ++ missing)

  unfoldable pub lines_from : List Duty → List Group → List DutyLine → List DutyLine
  lines_from every [] lines = lines
  lines_from every (g ∷ gs) lines =
      lines_from every gs (if names who g then group_lines every g lines else lines)

abbrev pub duty_lines :
    List Group → Text → List Duty → Lives → List OfferRow → List Entry → List DutyLine
duty_lines groups assistant duties live offer should =
    lines_from offer live should (lower assistant) duties groups []

pub record SelfMapCheck : Type 0 where
  pub duties : List DutyLine
  pub should_say : List (Text × Text)

abbrev pub keys_of : List Group → List Key
keys_of groups = map (λ (g : Group). g.key) groups

abbrev pub lives_of : List OfferRow → ScoresUpkeep → List Probe → Lives
lives_of offer scores probes = map (λ (p : Probe). (p, evaluate_live p offer scores)) probes

abbrev pub spelled : Entry → Text × Text
spelled e = (e.0.norm, e.1)

module _ (groups : List Group) (assistant : Text) (scores : ScoresUpkeep)
    (offer : List OfferRow) where
  abbrev pub probes : List Probe
  probes = build_probes (keys_of groups)

  abbrev pub duties : List Duty
  duties = duties_of groups assistant probes

  abbrev pub lives : Lives
  lives = lives_of offer scores probes

  abbrev pub should : List Entry
  should = build_should_say (lower assistant) duties lives offer groups

  abbrev pub check_with : SelfMapCheck
  check_with = record {
    duties = duty_lines groups assistant duties lives offer should;
    should_say = map spelled should;
  }

-- `none` is the `ValueError` of an offer whose key does not parse.
unfoldable pub evaluate_self_map :
    List Group → List (Text × Text) → Text → ScoresUpkeep → Option SelfMapCheck
evaluate_self_map groups offer_rows assistant scores = elim (offer_of offer_rows) [
  | none ↦ none
  | some offer ↦ some (check_with groups assistant scores offer)
]
