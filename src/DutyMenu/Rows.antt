-- ===== src/DutyMenu/Rows.antt =====
-- The rows of app/services/duty_menu_build.py: what `/setup` designates, and what the menu offers. The
-- settings are arguments; one that is not set is empty.
pub mod Parsing
use brainstorm_server.Common.{Bool, true, false, List, [], ◌∷◌, ◌++◌, map, if◌then◌else◌}
use brainstorm_server.Common.Text.{Text, codes, is_nil}
use brainstorm_server.SelfMap.Probes.{published_score_metrics}

pub record RelaySettings : Type 0 where
  pub nostr_upload_ta_events_relay_public_url : Text
  pub nostr_upload_ta_events_relay : Text
  pub trusted_list_relay : Text
  pub dictionary_relay : Text

abbrev pub trusted_list_kind_row : Text
trusted_list_kind_row = codes "30392"

abbrev pub dictionary_kind_rows : List Text
dictionary_kind_rows = codes "39998" ∷ codes "39999" ∷ []

-- `a or b` of texts.
abbrev text_or : Text → Text → Text
text_or a b = if is_nil a then b else a

module _ (settings : RelaySettings) (assistant : Text) where
  abbrev ta_relay : Text
  ta_relay = settings.nostr_upload_ta_events_relay_public_url

  abbrev row : Text → Text → Text × (Text × Text)
  row relay key = (key, (assistant, relay))

  unfoldable pub designation_rows : List (Text × (Text × Text))
  designation_rows =
      map (λ tag. row ta_relay (codes "30382:" ++ tag)) published_score_metrics
      ++ row (text_or settings.trusted_list_relay ta_relay) trusted_list_kind_row
        ∷ (if is_nil settings.dictionary_relay
            then []
            else map (row settings.dictionary_relay) dictionary_kind_rows)

unfoldable pub with_relay : List (Text × (Text × Text)) → List (Text × Text)
with_relay [] = []
with_relay ((key, (who, relay)) ∷ rows) =
    let rest = with_relay rows in if is_nil relay then rest else (key, relay) ∷ rest

abbrev pub offer_rows : RelaySettings → Text → List (Text × Text)
offer_rows settings assistant = with_relay (designation_rows settings assistant)
