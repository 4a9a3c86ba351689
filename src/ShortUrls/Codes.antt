-- ===== src/ShortUrls/Codes.antt =====
-- The codes of app/services/shorturl_service.py: one that is generated is in its normal form.
use brainstorm_server.Common.{
  ℕ, suc, zero, not, arith, ◌==◌, ==_iff, ◌≡◌, refl, ap, Bool, true, false, List, [], ◌∷◌, All, map,
  take, ◌&&◌,
}
use brainstorm_server.Common.Text.{Text, is_nil}
use brainstorm_server.DutyMenu.Relays.{is_space, strip, strip_start, strip_end}
use brainstorm_server.ShortUrls.{
  short_code_alphabet, short_code_length, char_at, generate_short_code, upper, fold_confusable,
  folded, normalize_short_code,
}

-- A character that normalising leaves as it is.
abbrev IsPlain : ℕ → Type 0
IsPlain c = (is_space c ≡ false) × (fold_confusable (upper c) ≡ c)

alphabet-IsPlain : (n : ℕ) (s : Text) → All IsPlain s → IsPlain (char_at n s)
unfolding is_space
alphabet-IsPlain n [] h = (refl, refl)
alphabet-IsPlain zero (c ∷ cs) h = h.0
alphabet-IsPlain (suc n) (c ∷ cs) h = alphabet-IsPlain n cs h.1

and_false : (b : Bool) → b && false ≡ false
and_false true = refl
and_false false = refl

strip_end-plain : (s : Text) → All IsPlain s → strip_end is_space s ≡ s
unfolding strip_end
strip_end-plain [] h = refl
strip_end-plain (c ∷ cs) (plain, h) =
    rw (strip_end-plain cs h) (rw plain.0 (rw (and_false (is_nil cs)) refl))

strip_start-plain : (s : Text) → All IsPlain s → strip_start is_space s ≡ s
strip_start-plain [] h = refl
strip_start-plain (c ∷ cs) (plain, h) = rw plain.0 refl

folded-plain : (s : Text) → All IsPlain s → folded s ≡ s
unfolding folded
folded-plain [] h = refl
folded-plain (c ∷ cs) (plain, h) = rw plain.1 (ap (λ l. c ∷ l) (folded-plain cs h))

normalize-plain : (s : Text) → All IsPlain s → normalize_short_code s ≡ s
unfolding normalize_short_code strip
normalize-plain s h = rw (strip_start-plain s h) (rw (strip_end-plain s h) (folded-plain s h))

-- The test for it.
abbrev all_plain : Text → Bool
all_plain [] = true
all_plain (c ∷ cs) = (not (is_space c) && (fold_confusable (upper c) == c)) && all_plain cs

unchanged-IsPlain :
    (c : ℕ) → not (is_space c) && (fold_confusable (upper c) == c) ≡ true → IsPlain c
unchanged-IsPlain c h =
    (ground (arith, h), (==_iff (fold_confusable (upper c)) c).0 (ground (arith, h)))

all_plain-IsPlain : (s : Text) → all_plain s ≡ true → All IsPlain s
all_plain-IsPlain [] h = tt
all_plain-IsPlain (c ∷ cs) h =
    (unchanged-IsPlain c (ground (arith, h)), all_plain-IsPlain cs (ground (arith, h)))

short_code_alphabet_lem : All IsPlain short_code_alphabet
unfolding is_space
short_code_alphabet_lem = all_plain-IsPlain short_code_alphabet refl

drawn-IsPlain :
    (k : ℕ) (draws : List ℕ) → All IsPlain (map (λ n. char_at n short_code_alphabet) (take k draws))
drawn-IsPlain zero draws = tt
drawn-IsPlain (suc k) [] = tt
drawn-IsPlain (suc k) (n ∷ draws) =
    (alphabet-IsPlain n short_code_alphabet short_code_alphabet_lem, drawn-IsPlain k draws)

-- A code that is generated is in its normal form, so it is found as it is.
pub normalize-generate :
    (draws : List ℕ) → normalize_short_code (generate_short_code draws) ≡ generate_short_code draws
unfolding generate_short_code
normalize-generate draws = normalize-plain _ (drawn-IsPlain short_code_length draws)
