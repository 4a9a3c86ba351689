-- ===== src/DutyMenu/Rows/Parsing.antt =====
-- The rows that app/services/duty_menu_build.py offers are rows that self_map_build.py reads.
use brainstorm_server.Common.{ℕ, suc, ◌≡◌, refl, inl, inr, some, List, [], ◌∷◌, Bool-cases, All}
use brainstorm_server.Common.Text.{Text, is_nil, text_eq, before, behind, split_on, join}
use brainstorm_server.SelfMap.Keys.{
  Key, parse_key, normalize_key, is_kind_slot, pop_empty, concept_key, other_key, slot_reading,
  scope_of, int_of,
}
use brainstorm_server.SelfMap.Offer.{OfferRow, rows_from, offer_of}
use brainstorm_server.DutyMenu.Rows.{RelaySettings, designation_rows, with_relay, offer_rows}

abbrev Parses : Text → Type 0
Parses t = (k : Key) × (parse_key t ≡ some k)

rows-parse :
    (place : ℕ) (rows : List (Text × Text))
    → All (λ r. Parses r.0) rows
    → (offer : List OfferRow) × (rows_from place rows ≡ some offer)
unfolding rows_from
rows-parse place [] h = ([], refl)
rows-parse place ((key, relay) ∷ rows) ((k, e), h) =
    let (offer, rest) = rows-parse (suc place) rows h in
    (record { key = k; relay = relay; place = place } ∷ offer, rw e (rw rest refl))

with_relay-parse :
    (rows : List (Text × (Text × Text)))
    → All (λ r. Parses r.0) rows
    → All (λ r. Parses r.0) (with_relay rows)
unfolding with_relay
with_relay-parse [] h = tt
with_relay-parse ((key, (who, relay)) ∷ rows) h = elim (Bool-cases (is_nil relay)) [
  | inl e ↦ rw e (with_relay-parse rows h.1)
  | inr e ↦ rw e (h.0, with_relay-parse rows h.1)
]

designation_rows-parse :
    (settings : RelaySettings) (assistant : Text)
    → All (λ r. Parses r.0) (designation_rows settings assistant)
unfolding designation_rows parse_key normalize_key is_kind_slot before behind split_on join
    pop_empty text_eq other_key concept_key slot_reading scope_of int_of
designation_rows-parse settings assistant = elim (Bool-cases (is_nil settings.dictionary_relay)) [
  | inl e ↦ rw e ((_, refl), ((_, refl), ((_, refl), ((_, refl), ((_, refl), ((_, refl), tt))))))
  | inr e ↦ rw e (
    (_, refl),
    ((_, refl), ((_, refl), ((_, refl), ((_, refl), ((_, refl), ((_, refl), ((_, refl), tt))))))),
  )
]

-- Whatever the settings, every key that is offered parses, so the offer is read with no error.
pub offer_of-offer_rows :
    (settings : RelaySettings) (assistant : Text)
    → (offer : List OfferRow) × (offer_of (offer_rows settings assistant) ≡ some offer)
offer_of-offer_rows settings assistant =
    rows-parse 0 (offer_rows settings assistant)
      (with_relay-parse _ (designation_rows-parse settings assistant))
