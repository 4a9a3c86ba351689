-- ===== src/SelfMap/Tests.antt =====
-- The keys and the check of a reader's Map at concrete inputs.
use brainstorm_server.Common.{◌≡◌, refl, true, Option, none, some, List, [], ◌∷◌, inl, inr}
use brainstorm_server.Common.Sorting.{sort_by}
use brainstorm_server.Common.Text.{
  Text, codes, text_eq, compare_text, before, behind, split_on, join,
}
use brainstorm_server.SelfMap.Keys.{
  Key, Probe, parse_key, normalize_key, is_kind_slot, int_of, pop_empty, slot_reading, scope_of,
  other_key, compare_segs, compare_keys, matches, covers, winner_from, winner_of, metric,
}
use brainstorm_server.SelfMap.Keys.Spelling.{parse_key_round}
use brainstorm_server.SelfMap.Keys.Winner.{IsWinner, winner_of-IsWinner}
use brainstorm_server.SelfMap.Probes.{
  add_probe, probe, metrics_from, metrics_of, add_metrics, score_probes, other_probes,
  concepts_named, concept_probes, unchecked_kinds, unread_kinds, key_probes, build_probes,
}
use brainstorm_server.SelfMap.Duties.{
  Tag, Group, Duty, is_hex64, lower, add_to_group, groups_from, map_groups, in_supported_sets,
  duty_of, duties_of,
}
use brainstorm_server.SelfMap.Offer.{
  OfferRow, ScoresUpkeep, covering_from, order_of, offers_kind, live_score, live_by,
}
use brainstorm_server.SelfMap.Listing.{
  Entry, live_of, would_win, weigh, valid_from, try_key, list_key, list_keys, keys_naming,
  build_should_say,
}
use brainstorm_server.SelfMap.Listing.Truthful.{IsOffered}
use brainstorm_server.SelfMap.Lines.{duties, lives, should}
use brainstorm_server.DutyMenu.Relays.{UrlParts}
use brainstorm_server.SelfMap.Versions.{SelfEntry, read_self_entries, self_map_tags}
use brainstorm_server.SelfMap.Versions.Written.{read_self_entries-self_map_tags}
use brainstorm_server.DutyMenu.Relays.{is_space, strip, strip_end}
use brainstorm_server.SelfMap.Lines.Check.{IsLiveScore, should-claims_live}

abbrev rank_key : Key
rank_key = record {
  norm = codes "30382:rank";
  slot = codes "30382";
  kinds = 30382 ∷ [];
  segs = codes "rank" ∷ [];
  rank = 3;
  scope = metric (codes "rank");
}

-- A key with a trailing colon is read as its one spelling.
parse_key_round_example : parse_key (codes "30382:rank") ≡ some rank_key
unfolding parse_key normalize_key is_kind_slot before behind split_on join pop_empty text_eq
    other_key slot_reading scope_of int_of
parse_key_round_example = parse_key_round (codes "30382:rank:") rank_key refl

abbrev itself : Key → Key
itself k = k

winner_of-IsWinner_example :
    IsWinner itself
      (probe 30382 (metric (codes "rank")))
      (rank_key ∷ [])
      (winner_of itself (rank_key ∷ []) (probe 30382 (metric (codes "rank"))))
winner_of-IsWinner_example =
    winner_of-IsWinner itself (probe 30382 (metric (codes "rank"))) (rank_key ∷ [])

-- A reader whose Map gives every Score to the Assistant, whose Scores are live.
abbrev assistant : Text
assistant = codes "15f7dafc4624b1e6b00ab7f863de1a53b71967528070ec7d1837c7a40c1c7270"

abbrev ta_relay : Text
ta_relay = codes "wss://ta"

abbrev reader : List Tag
reader = some (some (codes "30382:rank:") ∷ some assistant ∷ some ta_relay ∷ []) ∷ []

abbrev offer : List OfferRow
offer = record { key = rank_key; relay = ta_relay; place = 0 } ∷ []

abbrev upkeep : ScoresUpkeep
upkeep = record { status = "live"; last_landed_at = none }

abbrev rank_probe : Probe
rank_probe = probe 30382 (metric (codes "rank"))

abbrev rank_entry : Entry
rank_entry = (rank_key, ta_relay)

abbrev reader_group : Group
reader_group = record { key = rank_key; providers = assistant ∷ [] }

abbrev rank_duty : Duty
rank_duty = record { probe = rank_probe; winner = some reader_group; duty = true }

listed : should (map_groups reader) assistant upkeep offer ≡ rank_entry ∷ []
unfolding parse_key normalize_key is_kind_slot before behind split_on join pop_empty text_eq
    other_key slot_reading scope_of int_of compare_keys compare_segs compare_text matches covers
    winner_from add_probe metrics_from metrics_of add_metrics score_probes other_probes
    concepts_named concept_probes unchecked_kinds unread_kinds key_probes build_probes is_hex64
    lower add_to_group groups_from map_groups in_supported_sets duty_of duties_of covering_from
    order_of offers_kind live_score live_by live_of would_win weigh valid_from try_key list_key
    list_keys keys_naming build_should_say sort_by
listed = refl

should-claims_live_example :
    IsLiveScore rank_probe offer upkeep ta_relay
    × IsOffered
        (lower assistant)
        (duties (map_groups reader) assistant upkeep offer)
        (lives (map_groups reader) assistant upkeep offer)
        offer
        rank_entry
unfolding parse_key normalize_key is_kind_slot before behind split_on join pop_empty text_eq
    other_key slot_reading scope_of int_of compare_keys compare_segs compare_text matches covers
    winner_from add_probe metrics_from metrics_of add_metrics score_probes other_probes
    concepts_named concept_probes unchecked_kinds unread_kinds key_probes build_probes is_hex64
    lower add_to_group groups_from map_groups in_supported_sets duty_of duties_of covering_from
    order_of offers_kind live_score live_by live_of would_win weigh valid_from try_key list_key
    list_keys keys_naming build_should_say sort_by
should-claims_live_example =
    should-claims_live reader assistant upkeep offer rank_duty rank_entry (inr (inr (inl refl)))
      refl refl

abbrev no_parts : Text → Option UrlParts
no_parts s = none

abbrev entries : List SelfEntry
entries = (codes "30382:rank", ta_relay) ∷ (codes "30392", ta_relay) ∷ []

read_self_entries-self_map_tags_example :
    read_self_entries no_parts (self_map_tags assistant entries) assistant ≡ entries
unfolding parse_key normalize_key is_kind_slot before behind split_on join pop_empty text_eq
    other_key slot_reading scope_of int_of is_space strip strip_end
read_self_entries-self_map_tags_example =
    read_self_entries-self_map_tags no_parts assistant entries
      (((rank_key, refl, refl), refl), (((_, refl, refl), refl), tt)) (refl, (refl, tt))
