-- ===== src/DutyMenu/Menu.antt =====
-- The Duty Menu of app/services/duty_menu_build.py: its tags, what counts as one, and its date. An
-- event is what the code reads of it; an element of a tag that is no text is `none`, and `str` of
-- one is taken to spell no key, no author and no header.
pub mod Recognized
use brainstorm_server.Common.{
  ℕ, zero, suc, ◌+◌, Bool, true, false, not, ◌&&◌, ◌||◌, Option, none, some, List, [], ◌∷◌, ◌++◌,
  map, ◌==◌, leb, ltb, if◌then◌else◌,
}
use brainstorm_server.Common.Text.{Text, codes, is_nil, text_eq}
use brainstorm_server.SelfMap.Keys.{is_digit}
use brainstorm_server.SelfMap.Duties.{lower, Tag, is_hex}

abbrev pub duty_menu_kind : ℕ
duty_menu_kind = 39999

abbrev pub duty_menu_d : Text
duty_menu_d = codes "duty-menu"

abbrev pub nous_pubkey : Text
nous_pubkey = codes "15f7dafc4624b1e6b00ab7f863de1a53b71967528070ec7d1837c7a40c1c7270"

abbrev pub duty_menu_header : Text
duty_menu_header = codes "39998:" ++ nous_pubkey ++ codes ":" ++ duty_menu_d

pub record MenuEvent : Type 0 where
  pub kind : ℕ
  pub pubkey : Text
  pub tags : List Tag

abbrev texts : List Text → Tag
texts ts = some (map some ts)

abbrev duty_tag : Text × Text → Tag
duty_tag (key, relay) = texts (codes "duty" ∷ key ∷ relay ∷ [])

unfoldable pub duty_tags : List (Text × Text) → List Tag
duty_tags [] = []
duty_tags (row ∷ rows) = duty_tag row ∷ duty_tags rows

unfoldable pub build_menu_tags : Text → List (Text × Text) → List Tag
build_menu_tags assistant rows =
    texts (codes "d" ∷ duty_menu_d ∷ [])
    ∷ texts (codes "z" ∷ duty_menu_header ∷ [])
    ∷ texts (codes "p" ∷ assistant ∷ [])
    ∷ duty_tags rows

-- `^39998:[0-9a-f]{64}:concept-header$`, ignoring case: `$` also stands before a last newline.
abbrev ends_header : Text → Bool
ends_header rest =
    text_eq (lower rest) (codes ":concept-header")
    || text_eq (lower rest) (codes ":concept-header" ++ 10 ∷ [])

unfoldable pub after_hex : ℕ → Text → Bool
unfolding lower
after_hex zero rest = ends_header rest
after_hex (suc n) [] = false
after_hex (suc n) (c ∷ cs) = is_hex c && after_hex n cs

-- `concept_header_z.match(z)`
abbrev drop_prefix : Text → Text → Option Text
drop_prefix [] s = some s
drop_prefix (c ∷ cs) [] = none
drop_prefix (c ∷ cs) (d ∷ ds) = if c == d then drop_prefix cs ds else none

abbrev hex_behind : Option Text → Bool
hex_behind none = false
hex_behind (some rest) = after_hex 64 rest

unfoldable pub is_concept_header : Text → Bool
unfolding after_hex
is_concept_header z = hex_behind (drop_prefix (codes "39998:") z)

-- The second elements of the tags of one name: `none` where there is no second, and where it is
-- no text.
pub data Second : Type 0 where
  missing : Second
  no_text : Second
  text : Text → Second

abbrev second_of : List (Option Text) → Second
second_of [] = missing
second_of (none ∷ more) = no_text
second_of (some t ∷ more) = text t

abbrev note_named : Text → Tag → List Second → List Second
note_named name (some (some n ∷ more)) rest = if text_eq n name then second_of more ∷ rest else rest
note_named name _ rest = rest

unfoldable pub named : Text → List Tag → List Second
named name [] = []
named name (t ∷ ts) = note_named name t (named name ts)

-- The first `d`, if any, is `duty-menu`.
abbrev is_menu_d : List Second → Bool
is_menu_d (text d ∷ ds) = text_eq d duty_menu_d
is_menu_d _ = false

-- There is one `p`, and it is the author.
abbrev is_author : Text → List Second → Bool
is_author who (text p ∷ []) = text_eq (lower p) who
is_author who _ = false

-- A `z` that says that the event is no menu, and the header that says that it is one.
abbrev bars : Second → Bool
bars (text z) = text_eq z (codes "list") || is_concept_header z
bars _ = false

abbrev is_header : Second → Bool
is_header (text z) = text_eq z duty_menu_header
is_header _ = false

abbrev pub any_of : (Second → Bool) → List Second → Bool
any_of test [] = false
any_of test (s ∷ ss) = test s || any_of test ss

unfoldable pub is_duty_menu : MenuEvent → Text → Bool
unfolding named is_concept_header lower
is_duty_menu event author =
    let who = lower author in
    let zs = named (codes "z") event.tags in
    (event.kind == duty_menu_kind)
    && ((not (is_nil who) && text_eq (lower event.pubkey) who)
        && (is_menu_d (named (codes "d") event.tags)
            && (is_author who (named (codes "p") event.tags)
                && (not (any_of bars zs) && any_of is_header zs))))

-- `max(created_at of earlier versions, default=0)`
abbrev max : ℕ → ℕ → ℕ
max a b = if ltb a b then b else a

unfoldable pub newest_from : List ℕ → ℕ
newest_from [] = 0
newest_from (c ∷ cs) = max c (newest_from cs)

unfoldable pub menu_created_at : ℕ → List ℕ → ℕ
unfolding newest_from
menu_created_at now earlier = max now (newest_from earlier + 1)
