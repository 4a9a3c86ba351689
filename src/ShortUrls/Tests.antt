-- ===== src/ShortUrls/Tests.antt =====
-- Short links at concrete inputs.
use brainstorm_server.Common.{◌≡◌, refl, String, some, All, List, [], ◌∷◌}
use brainstorm_server.Common.Text.{codes, text_eq}
use brainstorm_server.DutyMenu.Relays.{is_space, strip, strip_end}
use brainstorm_server.ShortUrls.{
  ShortUrl, Attempt, created, new_row, mint, create_short_url, generate_short_code, folded,
  normalize_short_code, select_short_url_by_code_on_db, select_short_url_by_entity_on_db,
  get_short_url_entity,
}
use brainstorm_server.ShortUrls.Minting.{IsNormal, create_short_url_lem}

-- A link of another entity, whose code the first attempt draws too.
abbrev table : List ShortUrl
table = new_row "note" "n1" [] (codes "00000000") ∷ []

abbrev attempts : List Attempt
attempts =
    record { draws = 0 ∷ 0 ∷ 0 ∷ 0 ∷ 0 ∷ 0 ∷ 0 ∷ 0 ∷ []; others = [] }
    ∷ record { draws = 1 ∷ 1 ∷ 1 ∷ 1 ∷ 1 ∷ 1 ∷ 1 ∷ 10 ∷ []; others = [] }
    ∷ []

abbrev link : ShortUrl
link = new_row "profile" "p1" ("wss://relay" ∷ []) (codes "1111111A")

create_short_url_lem_example :
    (◌≡◌ {A = String} "profile" "profile")
    × (◌≡◌ {A = String} "p1" "p1")
    × IsNormal link
    × All IsNormal (create_short_url "profile" "p1" ("wss://relay" ∷ []) attempts table).1
    × (get_short_url_entity
          (codes "iLi1Il1a")
          (create_short_url "profile" "p1" ("wss://relay" ∷ []) attempts table).1
        ≡ some link)
    × (create_short_url "profile" "p1" [] []
          (create_short_url "profile" "p1" ("wss://relay" ∷ []) attempts table).1
        ≡ (created link, (create_short_url "profile" "p1" ("wss://relay" ∷ []) attempts table).1))
unfolding text_eq is_space strip strip_end mint create_short_url generate_short_code folded
    normalize_short_code select_short_url_by_code_on_db select_short_url_by_entity_on_db
create_short_url_lem_example =
    create_short_url_lem "profile" "p1" ("wss://relay" ∷ []) [] attempts [] table link
      (codes "iLi1Il1a") ((refl, tt), ((refl, tt), (refl, tt))) (refl, tt) (tt, (tt, tt)) refl refl
