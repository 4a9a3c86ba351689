-- ===== src/SelfMap/Versions.antt =====
-- Reading and writing versions of the Assistant's Map, in app/services/self_map_build.py. The author
-- of a version is given in lower case; what `urlsplit` gives is a parameter.
pub mod Written
use brainstorm_server.Common.{
  ℕ, Bool, true, false, not, ◌&&◌, ◌||◌, Option, none, some, List, [], ◌∷◌, ◌++◌, map, ltb, ◌==◌,
  if◌then◌else◌,
}
use Prim.Native.Nat.{Ordering}
use brainstorm_server.Common.Text.{Text, is_nil, text_eq, compare_text}
use brainstorm_server.SelfMap.Keys.{Key, parse_key, is_lt}
use brainstorm_server.SelfMap.Duties.{Tag, lower}
use brainstorm_server.DutyMenu.Relays.{UrlParts, strip, relay_key, after_scheme, is_space}

pub record Version : Type 0 where
  pub created_at : ℕ
  pub id : Text
  pub tags : List Tag

-- `wss?://\S+`, of the whole text.
abbrev no_space : Text → Bool
no_space [] = true
no_space (c ∷ cs) = not (is_space c) && no_space cs

abbrev is_host_part : Option Text → Bool
is_host_part none = false
is_host_part (some rest) = not (is_nil rest) && no_space rest

unfoldable pub is_relay_url : Text → Bool
is_relay_url s = is_host_part (after_scheme s)

-- The first is newer: a later date, and on a tie the lower id.
abbrev pub is_newer : Version → Version → Bool
is_newer a b =
    ltb b.created_at a.created_at
    || (a.created_at == b.created_at && is_lt (compare_text a.id b.id))

-- `min`, which keeps the first of equals.
unfoldable pub newest_of : Version → List Version → Version
newest_of best [] = best
newest_of best (v ∷ vs) = newest_of (if is_newer v best then v else best) vs

unfoldable pub newest : List Version → Option Version
newest [] = none
newest (v ∷ vs) = some (newest_of v vs)

abbrev pub SelfEntry : Type 0
SelfEntry = Text × Text

-- The third element, as written: empty where it is missing or no text.
abbrev relay_of : List (Option Text) → Text
relay_of (some relay ∷ more) = strip relay
relay_of _ = []

module _ (urlsplit : Text → Option UrlParts) where
  abbrev pub same_entry : SelfEntry → SelfEntry → Bool
  same_entry (k, r) (l, s) = text_eq k l && text_eq (relay_key urlsplit r) (relay_key urlsplit s)

  abbrev pub has_entry : SelfEntry → List SelfEntry → Bool
  has_entry e [] = false
  has_entry e (f ∷ fs) = same_entry f e || has_entry e fs

  abbrev add_entry : SelfEntry → List SelfEntry → List SelfEntry
  add_entry e out = if has_entry e out then out else out ++ e ∷ []

  abbrev add_parsed : Option Key → Text → List SelfEntry → List SelfEntry
  add_parsed none relay out = out
  add_parsed (some key) relay out = add_entry (key.norm, relay) out

  -- A tag of two elements at least, whose second is the author.
  abbrev pub read_tag : Text → Tag → List SelfEntry → List SelfEntry
  read_tag who (some (some key ∷ some author ∷ more)) out =
      if text_eq (lower author) who then add_parsed (parse_key key) (relay_of more) out else out
  read_tag who _ out = out

  unfoldable pub entries_from : Text → List Tag → List SelfEntry → List SelfEntry
  entries_from who [] out = out
  entries_from who (t ∷ ts) out = entries_from who ts (read_tag who t out)

  unfoldable pub read_self_entries : List Tag → Text → List SelfEntry
  unfolding lower
  read_self_entries tags author = entries_from (lower author) tags []

  unfoldable pub all_in : List SelfEntry → List SelfEntry → Bool
  all_in [] fs = true
  all_in (e ∷ es) fs = has_entry e fs && all_in es fs

  -- As sets of key and relay.
  unfoldable pub same_self_entries : List SelfEntry → List SelfEntry → Bool
  unfolding all_in
  same_self_entries a b = all_in a b && all_in b a

  abbrev pub tags_of : Option Version → List Tag
  tags_of none = []
  tags_of (some v) = v.tags

  unfoldable pub nothing_to_change : Option Version → Text → List SelfEntry → Bool
  nothing_to_change latest author target =
      same_self_entries (read_self_entries (tags_of latest) author) target

  abbrev relays_in : List SelfEntry → List Text
  relays_in [] = []
  relays_in ((k, relay) ∷ es) = if is_relay_url relay then relay ∷ relays_in es else relays_in es

  unfoldable pub self_entry_relays : List (List Tag) → Text → List Text
  self_entry_relays [] author = []
  self_entry_relays (tags ∷ events) author =
      relays_in (read_self_entries tags author) ++ self_entry_relays events author

  abbrev has_relay : Text → List Text → Bool
  has_relay url [] = false
  has_relay url (r ∷ rs) =
      text_eq (relay_key urlsplit r) (relay_key urlsplit url) || has_relay url rs

  unfoldable pub relays_from : List Text → List Text → List Text
  relays_from [] out = out
  relays_from (url ∷ urls) out =
      relays_from urls
        (if is_relay_url (strip url) && not (has_relay url out) then out ++ strip url ∷ [] else out)

  unfoldable pub self_map_relays : List Text → List SelfEntry → List Text → List Text
  self_map_relays outbox should_say hints =
      relays_from (outbox ++ map (λ (e : SelfEntry). e.1) should_say ++ hints) []

abbrev pub entry_tag : Text → SelfEntry → Tag
entry_tag who (key, relay) = some (some key ∷ some who ∷ some relay ∷ [])

unfoldable pub tags_with : Text → List SelfEntry → List Tag
tags_with who [] = []
tags_with who (e ∷ es) = entry_tag who e ∷ tags_with who es

unfoldable pub self_map_tags : Text → List SelfEntry → List Tag
unfolding lower
self_map_tags author entries = tags_with (lower author) entries
