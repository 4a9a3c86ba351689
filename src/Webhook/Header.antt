-- ===== src/Webhook/Header.antt =====
-- `parse_signature_header` of app/services/flash_webhook_service.py. A text is the list of its code
-- points; the server decodes headers as Latin-1, so that all are below 256, where Python's white
-- space and decimal digits are the ones below.
use brainstorm_server.Common.{
  ℕ, zero, suc, ◌+◌, ◌-◌, ◌*◌, ◌≡◌, refl, Bool, true, false, ◌&&◌, ◌||◌, Option, none, some, List,
  [], ◌∷◌, ◌==◌, leb, if◌then◌else◌, length,
}
use mathlib.Core.List.{reverse}
use brainstorm_server.Common.Int.{ℤ, pos, negsuc}

abbrev pub Text : Type 0
Text = List ℕ

abbrev pub same_text : Text → Text → Bool
same_text [] [] = true
same_text (a ∷ l) (b ∷ m) = (a == b) && same_text l m
same_text _ _ = false

abbrev is_space : ℕ → Bool
is_space c = (leb 9 c && leb c 13) || ((leb 28 c && leb c 32) || ((c == 133) || (c == 160)))

abbrev drop_space : Text → Text
drop_space [] = []
drop_space (c ∷ cs) = if is_space c then drop_space cs else c ∷ cs

-- `str.strip`.
unfoldable pub strip : Text → Text
strip s = reverse (drop_space (reverse (drop_space s)))

abbrev onto_first : ℕ → List Text → List Text
onto_first c [] = (c ∷ []) ∷ []
onto_first c (s ∷ ss) = (c ∷ s) ∷ ss

-- `raw.split(",")`.
unfoldable pub split : ℕ → Text → List Text
split sep [] = [] ∷ []
split sep (c ∷ cs) = let rest = split sep cs in if c == sep then [] ∷ rest else onto_first c rest

abbrev before_add : ℕ → Option (Text × Text) → Option (Text × Text)
before_add c none = none
before_add c (some (key, value)) = some (c ∷ key, value)

-- `segment.partition("=")`, where the separator is there.
unfoldable pub partition : ℕ → Text → Option (Text × Text)
partition sep [] = none
partition sep (c ∷ cs) =
    let rest = partition sep cs in if c == sep then some ([], cs) else before_add c rest

abbrev field_here : Text → Option (Text × Text) → Option Text
field_here name none = none
field_here name (some (key, value)) =
    if same_text (strip key) name then some (strip value) else none

abbrev latest : Option Text → Option Text → Option Text
latest none earlier = earlier
latest (some later) earlier = some later

-- `fields.get(name)`: the last segment with that key wins.
unfoldable pub get_field : Text → List Text → Option Text
get_field name [] = none
get_field name (segment ∷ segments) =
    latest (get_field name segments) (field_here name (partition 61 segment))

abbrev is_digit : ℕ → Bool
is_digit c = leb 48 c && leb c 57

abbrev push_digit : ℕ → Option Text → Option Text
push_digit c none = none
push_digit c (some ds) = some (c ∷ ds)

-- The digits of a literal: an underscore may stand between two of them.
unfoldable pub digits : Bool → Text → Option Text
digits after_digit [] = if after_digit then some [] else none
digits after_digit (c ∷ cs) =
    let rest = digits true cs in
    let beyond = digits false cs in
    if is_digit c then push_digit c rest else if c == 95 && after_digit then beyond else none

unfoldable pub value_of : ℕ → Text → ℕ
value_of n [] = n
value_of n (c ∷ cs) = value_of (10 * n + (c - 48)) cs

-- Python converts no more than 4,300 digits.
abbrev natural : Option Text → Option ℕ
natural none = none
natural (some ds) = if leb (length ds) 4300 then some (value_of 0 ds) else none

abbrev negated : ℕ → ℤ
negated zero = pos 0
negated (suc n) = negsuc n

abbrev signed : (ℕ → ℤ) → Option ℕ → Option ℤ
signed sign none = none
signed sign (some n) = some (sign n)

-- `int(text)`, `none` for a ValueError.
unfoldable pub int_of : Text → Option ℤ
int_of [] = none
int_of (c ∷ cs) =
    if c == 45
    then signed negated (natural (digits false cs))
    else signed pos (natural (digits false (if c == 43 then cs else c ∷ cs)))

pub record SignatureParts : Type 0 where
  pub timestamp : ℤ
  pub signature : Text

abbrev pub text_t : Text
text_t = 116 ∷ []

abbrev pub text_v1 : Text
text_v1 = 118 ∷ 49 ∷ []

abbrev nonempty : Option Text → Option Text
nonempty none = none
nonempty (some []) = none
nonempty (some (c ∷ cs)) = some (c ∷ cs)

abbrev parts_of : Option Text → Option Text → Option SignatureParts
parts_of none signature = none
parts_of (some timestamp) none = none
parts_of (some timestamp) (some signature) = elim (int_of (strip timestamp)) [
  | none ↦ none
  | some t ↦ some (record { timestamp = t; signature = signature })
]

unfoldable pub parse_signature_header : Option Text → Option SignatureParts
parse_signature_header none = none
parse_signature_header (some []) = none
parse_signature_header (some (c ∷ cs)) =
    let segments = split 44 (c ∷ cs) in
    parts_of (nonempty (get_field text_t segments)) (nonempty (get_field text_v1 segments))

-- "t=12, v1=ab"
abbrev pub sample : Text
sample = 116 ∷ 61 ∷ 49 ∷ 50 ∷ 44 ∷ 32 ∷ 118 ∷ 49 ∷ 61 ∷ 97 ∷ 98 ∷ []

sample_parses :
    parse_signature_header (some sample)
    ≡ some (record { timestamp = pos 12; signature = 97 ∷ 98 ∷ [] })
unfolding parse_signature_header split get_field partition strip int_of digits value_of
sample_parses = refl
