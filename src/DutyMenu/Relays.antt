-- ===== src/DutyMenu/Relays.antt =====
-- The spelling of relays in app/services/duty_menu_build.py, and the relays that are written to. What
-- `urlsplit` and the properties of its result give for a text is a parameter, `none` where they
-- raise `ValueError`; case is that of ASCII, which is all that the url crate and `urlsplit` change.
pub mod Targets
use brainstorm_server.Common.{
  ℕ, ◌+◌, Bool, true, false, not, ◌&&◌, ◌||◌, Option, none, some, List, [], ◌∷◌, ◌++◌, ◌==◌, leb,
  if◌then◌else◌,
}
use brainstorm_server.Common.Text.{Text, codes, is_nil, text_eq, is_in_text}
use brainstorm_server.SelfMap.Keys.{colon, str_of}
use brainstorm_server.SelfMap.Duties.{lower, Tag}
use brainstorm_server.DutyMenu.Rows.{RelaySettings}

abbrev pub has_code : ℕ → List ℕ → Bool
has_code c [] = false
has_code c (d ∷ ds) = c == d || has_code c ds

-- `str.isspace` of one character.
unfoldable pub is_space : ℕ → Bool
is_space c =
    (leb 9 c && leb c 13)
    || ((leb 28 c && leb c 32)
        || ((leb 8192 c && leb c 8202)
            || has_code c (133 ∷ 160 ∷ 5760 ∷ 8232 ∷ 8233 ∷ 8239 ∷ 8287 ∷ 12288 ∷ [])))

module _ (test : ℕ → Bool) where
  abbrev pub strip_start : Text → Text
  strip_start [] = []
  strip_start (c ∷ cs) = let rest = strip_start cs in if test c then rest else c ∷ cs

  -- `rstrip` of the characters that pass.
  unfoldable pub strip_end : Text → Text
  strip_end [] = []
  strip_end (c ∷ cs) = let rest = strip_end cs in if is_nil rest && test c then [] else c ∷ rest

unfoldable pub strip : Text → Text
unfolding is_space strip_end
strip s = strip_end is_space (strip_start is_space s)

unfoldable pub rstrip_slash : Text → Text
unfolding strip_end
rstrip_slash s = strip_end (λ c. c == b'/') s

pub record UrlParts : Type 0 where
  pub scheme : Text
  pub hostname : Option Text
  pub port : Option ℕ
  pub path : Text
  pub query : Text

abbrev default_port : Text → Option ℕ
default_port scheme =
    if text_eq scheme (codes "ws")
    then some 80
    else if text_eq scheme (codes "wss")
    then some 443
    else none

abbrev is_default : ℕ → Option ℕ → Bool
is_default port none = false
is_default port (some p) = port == p

abbrev with_port : Text → Text → Option ℕ → Text
with_port scheme host none = host
with_port scheme host (some port) =
    if is_default port (default_port scheme) then host else host ++ colon ∷ str_of port

abbrev bracketed : Text → Text
bracketed host = if has_code colon host then (b'[' ∷ host) ++ b']' ∷ [] else host

abbrev query_of : Text → Text
query_of query = if is_nil query then [] else b'?' ∷ query

unfoldable pub spelled_from : Text → Text → UrlParts → Text
unfolding rstrip_slash lower
spelled_from scheme host parts =
    scheme
    ++ codes "://"
    ++ with_port scheme (bracketed host) parts.port
    ++ rstrip_slash parts.path
    ++ query_of parts.query

abbrev by_host : Text → UrlParts → Option Text → Text
by_host raw parts none = rstrip_slash (lower raw)
by_host raw parts (some host) =
    if is_nil parts.scheme || is_nil host
    then rstrip_slash (lower raw)
    else spelled_from (lower parts.scheme) host parts

abbrev by_parts : Text → Option UrlParts → Text
by_parts raw none = rstrip_slash (lower raw)
by_parts raw (some parts) = by_host raw parts parts.hostname

pub record RelayTarget : Type 0 where
  pub url : Text
  pub write_url : Text

-- A letter of `wss?`, ignoring case: U+017F is an `s` too.
abbrev is_s : ℕ → Bool
is_s c = c == b's' || (c == b'S' || c == 383)

abbrev is_w : ℕ → Bool
is_w c = c == b'w' || c == b'W'

abbrev after_slashes : Text → Option Text
after_slashes (c ∷ d ∷ e ∷ rest) =
    if c == colon && (d == b'/' && e == b'/') then some rest else none
after_slashes _ = none

abbrev after_optional_s : Text → Option Text
after_optional_s [] = none
after_optional_s (c ∷ cs) = if is_s c then after_slashes cs else after_slashes (c ∷ cs)

-- What stands behind `wss?://`.
unfoldable pub after_scheme : Text → Option Text
after_scheme (w ∷ s ∷ rest) = if is_w w && is_s s then after_optional_s rest else none
after_scheme _ = none

abbrev pub is_relay_prefix : Text → Bool
is_relay_prefix s = elim (after_scheme s) [ none ↦ false | some rest ↦ true ]

-- The relays that the `duty` rows of one earlier version name.
abbrev note_relay : Text → List Text → List Text
note_relay relay rest = if is_relay_prefix (strip relay) then strip relay ∷ rest else rest

abbrev duty_relay : Tag → List Text → List Text
duty_relay (some (some name ∷ key ∷ some relay ∷ more)) rest =
    if text_eq name (codes "duty") then note_relay relay rest else rest
duty_relay _ rest = rest

unfoldable pub duty_relays : List Tag → List Text
duty_relays [] = []
duty_relays (t ∷ ts) = duty_relay t (duty_relays ts)

unfoldable pub earlier_relays : List (List Tag) → List Text
earlier_relays [] = []
earlier_relays (tags ∷ rest) = duty_relays tags ++ earlier_relays rest

module _ (urlsplit : Text → Option UrlParts) where
  unfoldable pub relay_key : Text → Text
  unfolding strip spelled_from
  relay_key url = by_parts (strip url) (urlsplit (strip url))

  module _ (settings : RelaySettings) where
    unfoldable pub write_url : Text → Text
    write_url url =
        if text_eq (relay_key url) (relay_key settings.nostr_upload_ta_events_relay_public_url)
        then settings.nostr_upload_ta_events_relay
        else url

    abbrev pub target_of : Text → RelayTarget
    target_of url = record { url = url; write_url = write_url url }

    -- One of the two spellings of the target has been seen.
    abbrev pub is_seen : RelayTarget → List Text → Bool
    is_seen t seen = is_in_text (relay_key t.url) seen || is_in_text (relay_key t.write_url) seen

    unfoldable pub targets_from : List Text → List Text → List RelayTarget
    targets_from seen [] = []
    targets_from seen (url ∷ urls) =
        let skipped = targets_from seen urls in
        let t = target_of url in
        let taken = t ∷ targets_from (relay_key t.url ∷ relay_key t.write_url ∷ seen) urls in
        if is_nil url || is_seen t seen then skipped else taken

    -- `publish_targets(*groups)`
    abbrev pub concat : List (List Text) → List Text
    concat [] = []
    concat (g ∷ gs) = g ++ concat gs

    abbrev pub publish_targets : List (List Text) → List RelayTarget
    publish_targets groups = targets_from [] (concat groups)
