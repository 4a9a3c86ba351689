-- ===== src/ShortUrls.antt =====
-- The URL shortener: app/services/shorturl_service.py and app/repos/short_url_repo.py. A code is a list
-- of code points, whose case is that of ASCII. The path of an entity, which app/utils/shorturl_entities.py
-- makes of its kind, key and relays, is left out.
pub mod Codes
pub mod Minting
mod Tests
use brainstorm_server.Common.{
  ℕ, suc, zero, ◌+◌, ◌-◌, ◌%◌, String, Bool, true, false, ◌&&◌, ◌||◌, Option, none, some, is_some,
  List, [], ◌∷◌, ◌++◌, map, leb, ◌==◌, take, str_eq, if◌then◌else◌,
}
use brainstorm_server.Common.Text.{Text, codes, text_eq}
use brainstorm_server.DutyMenu.Relays.{strip}

pub record ShortUrl : Type 0 where
  pub short_code : Text
  pub kind : String
  pub entity_key : String
  pub relays : List String

abbrev pub short_code_length : ℕ
short_code_length = 8

abbrev pub short_code_alphabet : Text
short_code_alphabet = codes "0123456789ABCDEFGHJKMNPQRSTVWXYZ"

abbrev pub max_generation_attempts : ℕ
max_generation_attempts = 5

-- `secrets.choice`, of a number drawn at random: the alphabet has 32 characters.
abbrev pub char_at : ℕ → Text → ℕ
char_at n [] = b'0'
char_at zero (c ∷ cs) = c
char_at (suc n) (c ∷ cs) = char_at n cs

unfoldable pub generate_short_code : List ℕ → Text
generate_short_code draws = map (λ n. char_at n short_code_alphabet) (take short_code_length draws)

abbrev pub upper : ℕ → ℕ
upper c = if leb b'a' c && leb c b'z' then c - 32 else c

-- `_CONFUSABLES`
abbrev pub fold_confusable : ℕ → ℕ
fold_confusable c = if c == b'I' || c == b'L' then b'1' else if c == b'O' then b'0' else c

unfoldable pub folded : Text → Text
folded [] = []
folded (c ∷ cs) = fold_confusable (upper c) ∷ folded cs

unfoldable pub normalize_short_code : Text → Text
unfolding folded
normalize_short_code raw = folded (strip raw)

unfoldable pub select_short_url_by_code_on_db : Text → List ShortUrl → Option ShortUrl
select_short_url_by_code_on_db code [] = none
select_short_url_by_code_on_db code (r ∷ rs) =
    if text_eq r.short_code code then some r else select_short_url_by_code_on_db code rs

unfoldable pub select_short_url_by_entity_on_db : String → String → List ShortUrl → Option ShortUrl
select_short_url_by_entity_on_db kind key [] = none
select_short_url_by_entity_on_db kind key (r ∷ rs) =
    if str_eq r.kind kind && str_eq r.entity_key key
    then some r
    else select_short_url_by_entity_on_db kind key rs

-- One attempt: the draws of its code, and the rows that other requests have committed since the last
-- statement.
pub record Attempt : Type 0 where
  pub draws : List ℕ
  pub others : List ShortUrl

pub data Minted : Type 0 where
  created : ShortUrl → Minted
  no_unique_code : Minted

abbrev pub new_row : String → String → List String → Text → ShortUrl
new_row kind key relays code = record {
  short_code = code;
  kind = kind;
  entity_key = key;
  relays = relays;
}

-- The INSERT violates one of the two unique constraints: of the code, and of the kind and key.
abbrev pub violates : ShortUrl → List ShortUrl → Bool
violates r rows =
    is_some (select_short_url_by_code_on_db r.short_code rows)
    || is_some (select_short_url_by_entity_on_db r.kind r.entity_key rows)

-- After an `IntegrityError`.
abbrev pub settled_or :
    Option ShortUrl → List ShortUrl → Minted × List ShortUrl → Minted × List ShortUrl
settled_or none rows next = next
settled_or (some concurrent) rows next = (created concurrent, rows)

unfoldable pub mint :
    String → String → List String → List Attempt → List ShortUrl → Minted × List ShortUrl
mint kind key relays [] rows = (no_unique_code, rows)
mint kind key relays (a ∷ as_more) rows =
    let here = rows ++ a.others in
    let row = new_row kind key relays (generate_short_code a.draws) in
    let next = mint kind key relays as_more here in
    if violates row here
    then settled_or (select_short_url_by_entity_on_db kind key here) here next
    else (created row, here ++ row ∷ [])

abbrev existing_or :
    Option ShortUrl → List ShortUrl → Minted × List ShortUrl → Minted × List ShortUrl
existing_or none rows minted = minted
existing_or (some r) rows minted = (created r, rows)

unfoldable pub create_short_url :
    String → String → List String → List Attempt → List ShortUrl → Minted × List ShortUrl
create_short_url kind key relays attempts rows =
    existing_or (select_short_url_by_entity_on_db kind key rows) rows
      (mint kind key relays (take max_generation_attempts attempts) rows)

-- `none` is the 404.
unfoldable pub get_short_url_entity : Text → List ShortUrl → Option ShortUrl
get_short_url_entity short_code rows =
    select_short_url_by_code_on_db (normalize_short_code short_code) rows
