-- ===== src/SelfMap/Keys/Spelling.antt =====
-- The one spelling of a key, `normalize_key` of app/services/self_map_build.py, and what
-- `parse_key` keeps of it.
use brainstorm_server.Common.{
  ◌≡◌, refl, sym, ap, ◌∙◌, ◌⊎◌, inl, inr, Bool, true, false, not, ◌&&◌, none, some, List, [], ◌∷◌,
  arith, Bool-cases, if◌then◌else◌,
}
use brainstorm_server.Common.Text.{
  Text, codes, is_nil, text_eq, text_eq→eq, is_in_text, before, behind, split_on, join, has_sep,
  NoSep, before-NoSep, split_on-NoSep, before-join, behind-join, behind_none, split_on-join,
}
use brainstorm_server.SelfMap.Keys.{
  colon, Key, is_concept_slot, is_kind_slot, pop_empty, normalize_key, nameless_keys, concept_key,
  other_key, parse_key,
}

-- The segments of a key as they stand in its spelling.
pub segments : Text → List Text
segments rest = pop_empty (if is_nil rest then [] else split_on colon rest)

pop_empty_again : (ss : List Text) → pop_empty (pop_empty ss) ≡ pop_empty ss
unfolding pop_empty
pop_empty_again [] = refl
pop_empty_again (s ∷ ss) = elim (Bool-cases (is_nil (pop_empty ss) && is_nil s)) [
  | inl e ↦ rw e refl
  | inr e ↦ rw e (rw (pop_empty_again ss) (rw e refl))
]

pop_empty-NoSep : (ss : List Text) → NoSep colon ss → NoSep colon (pop_empty ss)
unfolding pop_empty
pop_empty-NoSep [] h = tt
pop_empty-NoSep (s ∷ ss) h = elim (Bool-cases (is_nil (pop_empty ss) && is_nil s)) [
  | inl e ↦ rw e tt
  | inr e ↦ rw e (h.0, pop_empty-NoSep ss h.1)
]

pub segments-NoSep : (rest : Text) → NoSep colon (segments rest)
unfolding segments pop_empty
segments-NoSep [] = tt
segments-NoSep (c ∷ cs) = pop_empty-NoSep (split_on colon (c ∷ cs)) (split_on-NoSep colon (c ∷ cs))

pub segments_again : (rest : Text) → pop_empty (segments rest) ≡ segments rest
unfolding segments
segments_again rest = pop_empty_again (if is_nil rest then [] else split_on colon rest)

-- Nothing is spelled by no segment, or by one empty one.
join_nil : (s : Text) (ss : List Text) → is_nil (join colon s ss) ≡ true → pop_empty (s ∷ ss) ≡ []
unfolding join pop_empty
join_nil [] [] h = refl
join_nil (c ∷ cs) [] h = cc
join_nil [] (t ∷ ts) h = cc
join_nil (c ∷ cs) (t ∷ ts) h = cc

-- Segments that are spelled and read again are the same.
pub read_again :
    (slot : Text) (ss : List Text)
    → has_sep colon slot ≡ false
    → NoSep colon ss
    → pop_empty ss ≡ ss
    → segments (behind colon (join colon slot ss)) ≡ ss
unfolding segments pop_empty join
read_again slot [] h k p = rw (behind_none colon slot h) refl
read_again slot (s ∷ ss) h k p =
    rw (behind-join colon slot s ss h) (elim (Bool-cases (is_nil (join colon s ss))) [
      | inl e ↦ rw e (sym (join_nil s ss e) ∙ p)
      | inr e ↦ rw e (rw (split_on-join colon s ss k) p)
    ])

module _ (key : Text) where
  abbrev pub slot : Text
  slot = before colon key

  pub normalize_other :
      is_concept_slot slot ≡ false
      → normalize_key key ≡ join colon slot (segments (behind colon key))
  unfolding normalize_key segments
  normalize_other e = rw e refl

  abbrev pub is_header : Bool
  is_header = text_eq slot (codes "39998") && text_eq (behind colon key) (codes "dlist-header")

  pub normalize_header :
      is_concept_slot slot ≡ true → is_header ≡ true → normalize_key key ≡ codes "39998"
  unfolding normalize_key
  normalize_header e h = rw e (rw h refl)

  pub normalize_concept : is_concept_slot slot ≡ true → is_header ≡ false → normalize_key key ≡ key
  unfolding normalize_key
  normalize_concept e h = rw e (rw h refl)

pub normalize_key-before : (key : Text) → before colon (normalize_key key) ≡ before colon key
unfolding before
normalize_key-before key = elim (Bool-cases (is_concept_slot (before colon key))) [
  | inr e ↦
      rw (normalize_other key e) (
        before-join colon (before colon key) (segments (behind colon key)) (before-NoSep colon key))
  | inl e ↦ elim (Bool-cases (is_header key)) [
    | inr h ↦ rw (normalize_concept key e h) refl
    | inl h ↦
        rw (normalize_header key e h)
          (sym (text_eq→eq (before colon key) (codes "39998") (ground arith)))
  ]
]

bare_concept : normalize_key (codes "39998") ≡ codes "39998"
unfolding normalize_key before behind text_eq
bare_concept = refl

-- A key in its one spelling is spelled as it is.
pub normalize_key_again : (key : Text) → normalize_key (normalize_key key) ≡ normalize_key key
normalize_key_again key = elim (Bool-cases (is_concept_slot (before colon key))) [
  | inr e ↦
      normalize_other (normalize_key key) (rw (normalize_key-before key) e)
      ∙ rw (normalize_key-before key) (
          rw (normalize_other key e) (
            ap (join colon (before colon key)) (
              read_again (before colon key) (segments (behind colon key)) (before-NoSep colon key)
                (segments-NoSep (behind colon key)) (segments_again (behind colon key)))))
  | inl e ↦ elim (Bool-cases (is_header key)) [
    | inr h ↦ rw (normalize_concept key e h) (normalize_concept key e h)
    | inl h ↦ rw (normalize_header key e h) bare_concept
  ]
]

concept_key-norm : (norm slot : Text) → (concept_key norm slot).norm ≡ norm
unfolding concept_key
concept_key-norm norm slot = ground arith

parse_key-normalize : (key : Text) → parse_key (normalize_key key) ≡ parse_key key
unfolding parse_key
parse_key-normalize key = rw (normalize_key-before key) (rw (normalize_key_again key) refl)

-- The outcome of three tests in a row.
one_of :
    (a b c : Bool) (x y k : Key)
    → (if not a then none else if b then none else if c then some x else some y) ≡ some k
    → (b ≡ false) × (((c ≡ true) × (k ≡ x)) ⊎ ((c ≡ false) × (k ≡ y)))
one_of true false true x y k h = (refl, inl (refl, cc))
one_of true false false x y k h = (refl, inr (refl, cc))
one_of true true c x y k h = cc
one_of false b c x y k h = cc

-- How a key that parses was read.
pub parse_key-cases :
    (key : Text) (k : Key)
    → parse_key key ≡ some k
    → (is_in_text (normalize_key key) nameless_keys ≡ false)
      × (((is_concept_slot (before colon key) ≡ true)
            × (k ≡ concept_key (normalize_key key) (before colon key)))
          ⊎ ((is_concept_slot (before colon key) ≡ false)
              × (k ≡ other_key (normalize_key key) (before colon key))))
unfolding parse_key
parse_key-cases key k h =
    one_of (is_kind_slot (before colon key)) (is_in_text (normalize_key key) nameless_keys)
      (is_concept_slot (before colon key)) (concept_key (normalize_key key) (before colon key))
      (other_key (normalize_key key) (before colon key)) k h

pub parse_key-norm : (key : Text) (k : Key) → parse_key key ≡ some k → k.norm ≡ normalize_key key
unfolding other_key
parse_key-norm key k h = elim (parse_key-cases key k h).1 [
  | inl (c, e) ↦ rw e (concept_key-norm (normalize_key key) (before colon key))
  | inr (c, e) ↦ rw e refl
]

-- A key that parses, spelled and parsed again, is the same key.
pub parse_key_round : (key : Text) (k : Key) → parse_key key ≡ some k → parse_key k.norm ≡ some k
parse_key_round key k h = ap parse_key (parse_key-norm key k h) ∙ parse_key-normalize key ∙ h
