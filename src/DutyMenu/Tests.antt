-- ===== src/DutyMenu/Tests.antt =====
-- The Duty Menu at concrete inputs.
use brainstorm_server.Common.{Option, none, List, [], ◌∷◌, All}
use brainstorm_server.Common.Text.{Text, codes}
use brainstorm_server.DutyMenu.Rows.{RelaySettings}
use brainstorm_server.DutyMenu.Relays.{UrlParts, concat, publish_targets}
use brainstorm_server.DutyMenu.Relays.Targets.{AllApart, Reached, publish_targets_lem}

abbrev assistant : Text
assistant = codes "15F7dafc4624b1e6b00ab7f863de1a53b71967528070ec7d1837c7a40c1c7270"

abbrev settings : RelaySettings
settings = record {
  nostr_upload_ta_events_relay_public_url = codes "wss://ta.example";
  nostr_upload_ta_events_relay = codes "ws://internal:7777";
  trusted_list_relay = [];
  dictionary_relay = codes "wss://words.example";
}

-- A `urlsplit` that reads nothing.
abbrev no_parts : Text → Option UrlParts
no_parts s = none

-- The second address is the first in another spelling, and the third the internal one.
abbrev groups : List (List Text)
groups =
    (codes "wss://ta.example" ∷ codes "wss://TA.example/" ∷ [])
    ∷ (codes "ws://internal:7777" ∷ codes "wss://other.example" ∷ [])
    ∷ []

publish_targets_lem_example :
    AllApart no_parts settings (publish_targets no_parts settings groups)
    × All
        (Reached no_parts settings (publish_targets no_parts settings groups))
        (concat no_parts settings groups)
publish_targets_lem_example = publish_targets_lem no_parts settings groups

abbrev rows : List (Text × Text)
rows = (codes "30382:rank", codes "wss://ta.example") ∷ []
