-- ===== src/SelfMap/Versions/Written.antt =====
-- A version that app/services/self_map_build.py writes is read back as its self-entries.
use brainstorm_server.Common.{
  ◌≡◌, refl, sym, ap, subst, ◌∙◌, true, false, Option, some, List, [], ◌∷◌, ◌++◌, arith, All,
}
use mathlib.Core.List.{append-nil, append_assoc}
use brainstorm_server.Common.Text.{Text, text_eq, text_eq_refl}
use brainstorm_server.SelfMap.Keys.{Key, parse_key}
use brainstorm_server.SelfMap.Duties.{lower}
use brainstorm_server.DutyMenu.Relays.{UrlParts, strip, relay_key}
use brainstorm_server.SelfMap.Versions.{
  Version, SelfEntry, same_entry, has_entry, entries_from, read_self_entries, all_in,
  same_self_entries, nothing_to_change, read_tag, entry_tag, tags_with, self_map_tags,
}

lower_again : (s : Text) → lower (lower s) ≡ lower s
unfolding lower
lower_again [] = refl
lower_again (c ∷ cs) = ground (arith, lower_again cs)

-- The key is in its one spelling, and the relay has no space at its ends.
abbrev pub IsSpelled : SelfEntry → Type 0
IsSpelled e = ((k : Key) × (parse_key e.0 ≡ some k) × (k.norm ≡ e.0)) × (strip e.1 ≡ e.1)

module _ (urlsplit : Text → Option UrlParts) where
  -- No entry stands twice, nor in what is there already.
  abbrev pub DistinctFrom : List SelfEntry → List SelfEntry → Type 0
  DistinctFrom out [] = Unit
  DistinctFrom out (e ∷ es) = (has_entry urlsplit e out ≡ false) × DistinctFrom (out ++ e ∷ []) es

  read_one :
      (who : Text) (e : SelfEntry) (out : List SelfEntry)
      → lower who ≡ who
      → IsSpelled e
      → has_entry urlsplit e out ≡ false
      → read_tag urlsplit who (entry_tag who e) out ≡ out ++ e ∷ []
  read_one who (key, relay) out low ((k, parsed, norm), stripped) new =
      let author : text_eq (lower who) who ≡ true = rw low (text_eq_refl who) in
      rw author (rw parsed (rw norm (rw stripped (rw new refl))))

  read_back :
      (who : Text) (es out : List SelfEntry)
      → lower who ≡ who
      → All IsSpelled es
      → DistinctFrom out es
      → entries_from urlsplit who (tags_with who es) out ≡ out ++ es
  unfolding entries_from tags_with
  read_back who [] out low h d = sym (append-nil out)
  read_back who (e ∷ es) out low (h, rest) d =
      ap (entries_from urlsplit who (tags_with who es)) (read_one who e out low h d.0)
      ∙ (read_back who es (out ++ e ∷ []) low rest d.1 ∙ append_assoc out (e ∷ []) es)

  -- Where each entry is in its one spelling and none stands twice, the tags of a version are read back
  -- as its self-entries, in their order.
  pub read_self_entries-self_map_tags :
      (author : Text) (entries : List SelfEntry)
      → All IsSpelled entries
      → DistinctFrom [] entries
      → read_self_entries urlsplit (self_map_tags author entries) author ≡ entries
  unfolding read_self_entries self_map_tags
  read_self_entries-self_map_tags author entries h d =
      read_back (lower author) entries [] (lower_again author) h d

  same_entry_refl : (e : SelfEntry) → same_entry urlsplit e e ≡ true
  same_entry_refl e = rw (text_eq_refl e.0) (text_eq_refl (relay_key urlsplit e.1))

  stands :
      (before after : List SelfEntry) (e : SelfEntry)
      → has_entry urlsplit e (before ++ e ∷ after) ≡ true
  stands [] after e = rw (same_entry_refl e) refl
  stands (f ∷ fs) after e = ground (arith, stands fs after e)

  all_in_grown : (before es : List SelfEntry) → all_in urlsplit es (before ++ es) ≡ true
  unfolding all_in
  all_in_grown before [] = refl
  all_in_grown before (e ∷ es) = rw (stands before es e) (
      subst (λ fs. all_in urlsplit es fs ≡ true) (append_assoc before (e ∷ []) es)
        (all_in_grown (before ++ e ∷ []) es))

  -- A version that has just been written has nothing to change.
  pub nothing_to_change_written :
      (author : Text) (entries : List SelfEntry) (version : Version)
      → version.tags ≡ self_map_tags author entries
      → All IsSpelled entries
      → DistinctFrom [] entries
      → nothing_to_change urlsplit (some version) author entries ≡ true
  unfolding nothing_to_change same_self_entries
  nothing_to_change_written author entries version tags h d =
      rw tags (
        rw (read_self_entries-self_map_tags author entries h d) (rw (all_in_grown [] entries) refl))
