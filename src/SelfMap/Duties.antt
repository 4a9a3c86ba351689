-- ===== src/SelfMap/Duties.antt =====
-- The reader's Map in app/services/self_map_build.py, and whose duty each probe is. An event is what
-- the code reads of it: its tags, of which one is no list where it is `none`, with their elements, of
-- which one is no text where it is `none`.
use brainstorm_server.Common.{
  ℕ, ◌+◌, Bool, true, false, not, ◌&&◌, ◌||◌, Option, none, some, List, [], ◌∷◌, map, ◌==◌, leb,
  ltb, length, if◌then◌else◌,
}
use brainstorm_server.Common.Text.{Text, text_eq, is_in_text}
use brainstorm_server.SelfMap.Keys.{
  Scope, metric, unchecked, Key, Probe, score_kind, is_concept_kind, is_digit, is_all, parse_key,
  winner_of,
}
use brainstorm_server.SelfMap.Probes.{published_score_metrics}

abbrev pub Tag : Type 0
Tag = Option (List (Option Text))

pub record Group : Type 0 where
  pub key : Key
  pub providers : List Text

-- A letter of `HEX64`, in either case, and `lower()` of such a text.
abbrev pub is_hex : ℕ → Bool
is_hex c = is_digit c || ((leb b'a' c && leb c b'f') || (leb b'A' c && leb c b'F'))

abbrev all_hex : Text → Bool
all_hex [] = true
all_hex (c ∷ cs) = is_hex c && all_hex cs

unfoldable pub is_hex64 : Text → Bool
is_hex64 s = length s == 64 && all_hex s

unfoldable pub lower : Text → Text
lower [] = []
lower (c ∷ cs) = (if leb b'A' c && leb c b'Z' then c + 32 else c) ∷ lower cs

abbrev add_provider : Text → List Text → List Text
add_provider who providers = if is_in_text who providers then providers else who ∷ providers

-- `by_norm.setdefault(norm, Group(key)).providers.add(who)`
unfoldable pub add_to_group : Key → Text → List Group → List Group
add_to_group key who [] = record { key = key; providers = who ∷ [] } ∷ []
add_to_group key who (g ∷ gs) =
    let rest = add_to_group key who gs in
    if text_eq g.key.norm key.norm
    then record g { providers = add_provider who g.providers } ∷ gs
    else g ∷ rest

abbrev pub note_entry : Option Key → Text → List Group → List Group
note_entry none who groups = groups
note_entry (some key) who groups =
    if is_hex64 who then add_to_group key (lower who) groups else groups

-- A tag that is a list of two elements at least, whose key is a text and parses.
abbrev pub note_tag : Tag → List Group → List Group
note_tag (some (some key ∷ some who ∷ more)) groups = note_entry (parse_key key) who groups
note_tag _ groups = groups

unfoldable pub groups_from : List Tag → List Group → List Group
groups_from [] groups = groups
groups_from (t ∷ ts) groups = groups_from ts (note_tag t groups)

unfoldable pub map_groups : List Tag → List Group
map_groups tags = groups_from tags []

abbrev pub max_map_keys : ℕ
max_map_keys = 64

abbrev pub too_big_to_check : List Group → Bool
too_big_to_check groups = ltb max_map_keys (length groups)

abbrev pub is_published_metric : Scope → Bool
is_published_metric (metric s) = is_in_text s published_score_metrics
is_published_metric _ = false

abbrev pub is_unchecked : Scope → Bool
is_unchecked (unchecked s) = true
is_unchecked _ = false

unfoldable pub in_supported_sets : Probe → Bool
in_supported_sets p =
    if is_unchecked p.scope
    then true
    else if p.kind == score_kind
    then is_published_metric p.scope
    else not (is_concept_kind p.kind)

pub record Duty : Type 0 where
  pub probe : Probe
  pub winner : Option Group
  pub duty : Bool

abbrev pub names : Text → Group → Bool
names who g = is_in_text who g.providers

abbrev is_duty_of : Text → Probe → Option Group → Bool
is_duty_of who p none = false
is_duty_of who p (some g) = names who g && (not (is_all g.key.scope) || in_supported_sets p)

unfoldable pub duty_of : List Group → Text → Probe → Duty
duty_of groups who p = record {
  probe = p;
  winner = winner_of (λ (g : Group). g.key) groups p;
  duty = is_duty_of who p (winner_of (λ (g : Group). g.key) groups p);
}

unfoldable pub duties_of : List Group → Text → List Probe → List Duty
duties_of groups assistant probes = map (duty_of groups (lower assistant)) probes
