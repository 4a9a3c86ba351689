-- ===== src/Common/Text.antt =====
-- Texts as lists of code points, for code that takes them apart: equality and order as Python's,
-- `find`, `split_on` and `join` on one separator, and prefixes.
use Prim.Native.Nat.{ℕ, compare, Ordering}
use Prim.Native.Char.{code}
use Prim.Native.String.{String}
use mathlib.Core.Path.{◌≡◌, refl}
use mathlib.Core.Logic.{inl, inr}
use mathlib.Core.Bool.{Bool, true, false, ◌&&◌, ◌||◌}
use mathlib.Core.List.{List, [], ◌∷◌, ◌++◌}
use native.Mathlib.Omega.{arith}
use brainstorm_server.Common.Tests.{◌==◌, if◌then◌else◌, Bool-cases}

abbrev pub Text : Type 0
Text = List ℕ

abbrev pub codes : String → Text
codes String.[] = []
codes (String.◌∷◌ c s) = code c ∷ codes s

abbrev pub is_nil {ℓ} : {A : Type ℓ} → List A → Bool
is_nil [] = true
is_nil (x ∷ xs) = false

unfoldable pub text_eq : Text → Text → Bool
text_eq [] [] = true
text_eq (c ∷ cs) (d ∷ ds) = c == d && text_eq cs ds
text_eq [] (d ∷ ds) = false
text_eq (c ∷ cs) [] = false

pub text_eq→eq : (s t : Text) → text_eq s t ≡ true → s ≡ t
unfolding text_eq
text_eq→eq [] [] h = refl
text_eq→eq (c ∷ cs) (d ∷ ds) h = ground (arith, text_eq→eq cs ds)
text_eq→eq [] (d ∷ ds) h = cc
text_eq→eq (c ∷ cs) [] h = cc

pub text_eq_refl : (s : Text) → text_eq s s ≡ true
unfolding text_eq
text_eq_refl [] = refl
text_eq_refl (c ∷ cs) = ground (arith, text_eq_refl cs)

abbrev pub is_in_text : Text → List Text → Bool
is_in_text s [] = false
is_in_text s (t ∷ ts) = text_eq s t || is_in_text s ts

-- The order of two texts by code points.
unfoldable pub compare_text : Text → Text → Ordering
compare_text [] [] = Ordering.eq
compare_text [] (d ∷ ds) = Ordering.lt
compare_text (c ∷ cs) [] = Ordering.gt
compare_text (c ∷ cs) (d ∷ ds) =
    let rest = compare_text cs ds in
    elim (compare c d) [
      | Ordering.lt ↦ Ordering.lt
      | Ordering.eq ↦ rest
      | Ordering.gt ↦ Ordering.gt
    ]

abbrev pub flip : Ordering → Ordering
flip Ordering.lt = Ordering.gt
flip Ordering.eq = Ordering.eq
flip Ordering.gt = Ordering.lt

pub compare_text-flip : (s t : Text) → compare_text t s ≡ flip (compare_text s t)
unfolding compare_text
compare_text-flip [] [] = refl
compare_text-flip [] (d ∷ ds) = refl
compare_text-flip (c ∷ cs) [] = refl
compare_text-flip (c ∷ cs) (d ∷ ds) = ground (arith, compare_text-flip cs ds)

pub compare_text-eq : (s t : Text) → compare_text s t ≡ Ordering.eq → s ≡ t
unfolding compare_text
compare_text-eq [] [] h = refl
compare_text-eq [] (d ∷ ds) h = cc
compare_text-eq (c ∷ cs) [] h = cc
compare_text-eq (c ∷ cs) (d ∷ ds) h = ground (arith, compare_text-eq cs ds)

pub compare_text_trans :
    (s t u : Text)
    → compare_text s t ≡ Ordering.lt
    → compare_text t u ≡ Ordering.lt
    → compare_text s u ≡ Ordering.lt
unfolding compare_text
compare_text_trans [] [] u h k = cc
compare_text_trans [] (d ∷ ds) [] h k = cc
compare_text_trans [] (d ∷ ds) (e ∷ es) h k = refl
compare_text_trans (c ∷ cs) [] u h k = cc
compare_text_trans (c ∷ cs) (d ∷ ds) [] h k = cc
compare_text_trans (c ∷ cs) (d ∷ ds) (e ∷ es) h k =
    ground (arith, compare_text_trans cs ds es, compare_text-eq cs ds, compare_text-eq ds es)

-- What stands before the first separator, and behind it.
module _ (sep : ℕ) where
  unfoldable pub before : Text → Text
  before [] = []
  before (c ∷ cs) = let rest = before cs in if c == sep then [] else c ∷ rest

  unfoldable pub behind : Text → Text
  behind [] = []
  behind (c ∷ cs) = let rest = behind cs in if c == sep then cs else rest

  -- `split_on(sep)`, which returns one text at least.
  abbrev onto_first : ℕ → List Text → List Text
  onto_first c [] = (c ∷ []) ∷ []
  onto_first c (s ∷ ss) = (c ∷ s) ∷ ss

  unfoldable pub split_on : Text → List Text
  unfolding onto_first
  split_on [] = [] ∷ []
  split_on (c ∷ cs) = let rest = split_on cs in if c == sep then [] ∷ rest else onto_first c rest

  -- `sep.join(first, *rest)`.
  unfoldable pub join : Text → List Text → Text
  join first [] = first
  join first (s ∷ ss) = first ++ sep ∷ join s ss

  abbrev pub has_sep : Text → Bool
  has_sep [] = false
  has_sep (c ∷ cs) = c == sep || has_sep cs

  abbrev pub NoSep : List Text → Type 0
  NoSep [] = Unit
  NoSep (s ∷ ss) = (has_sep s ≡ false) × NoSep ss

  pub before-NoSep : (s : Text) → has_sep (before s) ≡ false
  unfolding before
  before-NoSep [] = refl
  before-NoSep (c ∷ cs) = ground (arith, before-NoSep cs)

  pub split_on-NoSep : (s : Text) → NoSep (split_on s)
  unfolding split_on
  split_on-NoSep [] = (refl, tt)
  split_on-NoSep (c ∷ cs) = elim (Bool-cases (c == sep)) [
    | inl e ↦ rw e (refl, split_on-NoSep cs)
    | inr e ↦ rw e (onto_first-NoSep c (split_on cs) e (split_on-NoSep cs))
  ]
    where
      onto_first-NoSep :
          (c : ℕ) (ss : List Text) → (c == sep) ≡ false → NoSep ss → NoSep (onto_first c ss)
      onto_first-NoSep c [] e h = (rw e refl, tt)
      onto_first-NoSep c (s ∷ ss) e h = (rw e h.0, h.1)

  pub before-join : (s : Text) (ss : List Text) → has_sep s ≡ false → before (join s ss) ≡ s
  unfolding before join
  before-join [] [] h = refl
  before-join [] (t ∷ ts) h = ground arith
  before-join (c ∷ cs) [] h = ground (arith, before-join cs [])
  before-join (c ∷ cs) (t ∷ ts) h = ground (arith, before-join cs (t ∷ ts))

  pub behind-join :
      (s t : Text) (ts : List Text) → has_sep s ≡ false → behind (join s (t ∷ ts)) ≡ join t ts
  unfolding behind join
  behind-join [] t ts h = ground arith
  behind-join (c ∷ cs) t ts h = ground (arith, behind-join cs t ts)

  pub behind_none : (s : Text) → has_sep s ≡ false → behind s ≡ []
  unfolding behind
  behind_none [] h = refl
  behind_none (c ∷ cs) h = ground (arith, behind_none cs)

  pub split_on-join : (s : Text) (ss : List Text) → NoSep (s ∷ ss) → split_on (join s ss) ≡ s ∷ ss
  unfolding split_on join
  split_on-join [] [] h = refl
  split_on-join [] (t ∷ ts) h = ground (arith, split_on-join t ts)
  split_on-join (c ∷ cs) [] h = ground (arith, split_on-join cs [])
  split_on-join (c ∷ cs) (t ∷ ts) h = ground (arith, split_on-join cs (t ∷ ts))
