-- ===== src/SelfMap/Keys/Distinct.antt =====
-- Two keys of app/services/self_map_build.py that are as specific as one another are one key.
use Prim.Native.Nat.{Ordering}
use brainstorm_server.Common.{
  suc, ◌≡◌, ◌≢◌, refl, sym, ap, ◌∙◌, ◌⊎◌, inl, inr, true, false, ◌&&◌, some, List, [], ◌∷◌, ◌++◌,
  arith, Bool-cases, ◌==◌, length,
}
use brainstorm_server.Common.Text.{
  Text, codes, is_nil, text_eq, text_eq→eq, text_eq_refl, is_in_text, before, behind, split_on,
  join, before-NoSep, split_on-join, compare_text-eq,
}
use brainstorm_server.SelfMap.Keys.{
  colon, Key, drop, tail, is_concept_slot, pop_empty, normalize_key, nameless_keys, concept_key,
  other_key, parse_key, compare_segs, compare_keys,
}
use brainstorm_server.SelfMap.Keys.Spelling.{
  segments, segments-NoSep, segments_again, normalize_other, normalize_header, normalize_concept,
  is_header, parse_key-cases, parse_key_round,
}
use brainstorm_server.SelfMap.Keys.Order.{compare_seg-eq}

-- The key is spelled by its slot and its segments, of which the last is not empty.
pub record IsNormal (k : Key) : Type 0 where
  pub spelled : k.norm ≡ join colon k.slot k.segs
  pub no_empty_end : pop_empty k.segs ≡ k.segs

all_empty : (vs : List Text) → compare_segs [] vs ≡ Ordering.eq → pop_empty vs ≡ []
unfolding compare_segs pop_empty
all_empty [] h = refl
all_empty ([] ∷ vs) h = rw (all_empty vs h) refl
all_empty ((c ∷ cs) ∷ vs) h = cc

all_empty_left : (us : List Text) → compare_segs us [] ≡ Ordering.eq → pop_empty us ≡ []
unfolding compare_segs pop_empty
all_empty_left [] h = refl
all_empty_left ([] ∷ us) h = rw (all_empty_left us h) refl
all_empty_left ((c ∷ cs) ∷ us) h = cc

rest_normal : (u : Text) (us : List Text) → pop_empty (u ∷ us) ≡ u ∷ us → pop_empty us ≡ us
unfolding pop_empty
rest_normal u us h = elim (Bool-cases (is_nil (pop_empty us) && is_nil u)) [
  | inl e ↦ cc (rw e at h)
  | inr e ↦ ap tail (rw e at h)
]

same_segs :
    (us vs : List Text)
    → pop_empty us ≡ us
    → pop_empty vs ≡ vs
    → compare_segs us vs ≡ Ordering.eq
    → us ≡ vs
unfolding compare_segs
same_segs [] vs n m h = sym (all_empty vs h) ∙ m
same_segs (u ∷ us) [] n m h = sym n ∙ all_empty_left (u ∷ us) h
same_segs (u ∷ us) (v ∷ vs) n m h =
    ground (arith, compare_seg-eq u v, same_segs us vs (rest_normal u us n) (rest_normal v vs m))

other_key-IsNormal :
    (key : Text)
    → is_concept_slot (before colon key) ≡ false
    → IsNormal (other_key (normalize_key key) (before colon key))
unfolding other_key
other_key-IsNormal key e =
    let ss = segments (behind colon key) in
    let spelled : normalize_key key ≡ join colon (before colon key) ss = normalize_other key e in
    let segs : tail (split_on colon (normalize_key key)) ≡ ss =
      ap (λ s. tail (split_on colon s)) spelled
      ∙ ap tail (
          split_on-join colon (before colon key) ss
            (before-NoSep colon key, segments-NoSep (behind colon key))) in
    record { spelled = rw segs spelled; no_empty_end = rw segs (segments_again (behind colon key)) }

-- A key is its slot, or its slot and what stands behind the colon.
apart :
    (key : Text) → (key ≡ before colon key) ⊎ (key ≡ before colon key ++ colon ∷ behind colon key)
unfolding before behind
apart [] = inl refl
apart (c ∷ cs) = elim (Bool-cases (c == colon)) [
  | inl e ↦ let here : c ≡ colon = ground arith in inr (rw e (ap (λ d. d ∷ cs) here))
  | inr e ↦ elim (apart cs) [
    | inl same ↦ inl (rw e (ap (◌∷◌ c) same))
    | inr same ↦ inr (rw e (ap (◌∷◌ c) same))
  ]
]

drop_slot : (slot rest : Text) → drop (suc (length slot)) (slot ++ colon ∷ rest) ≡ rest
drop_slot [] rest = refl
drop_slot (c ∷ cs) rest = drop_slot cs rest

one_stays : (d : Text) → d ≢ [] → pop_empty (d ∷ []) ≡ d ∷ []
unfolding pop_empty
one_stays [] h = absurd (h refl)
one_stays (c ∷ cs) h = refl

module _ (key : Text) (named : is_in_text (normalize_key key) nameless_keys ≡ false)
    (e : is_concept_slot (before colon key) ≡ true) where
  bare-IsNormal : (norm slot : Text) → norm ≡ slot → IsNormal (concept_key norm slot)
  unfolding concept_key join pop_empty
  bare-IsNormal norm slot same =
      let test : text_eq norm slot ≡ true = rw same (text_eq_refl slot) in
      record { spelled = rw test same; no_empty_end = rw test refl }

  parts-IsNormal :
      (norm slot d : Text) → norm ≡ slot ++ colon ∷ d → d ≢ [] → IsNormal (concept_key norm slot)
  unfolding concept_key join pop_empty
  parts-IsNormal norm slot d parts some_d = elim (Bool-cases (text_eq norm slot)) [
    | inl e ↦ bare-IsNormal norm slot (text_eq→eq norm slot e)
    | inr e ↦
        let rest : drop (suc (length slot)) norm ≡ d =
          ap (drop (suc (length slot))) parts ∙ drop_slot slot d in
        rw e (record { spelled = rw rest parts; no_empty_end = rw rest (one_stays d some_d) })
  ]

  nameless :
      (slot : Text) → normalize_key key ≡ slot ++ colon ∷ [] → is_concept_slot slot ≡ true → ⊥
  unfolding text_eq
  nameless slot same which = elim (Bool-cases (text_eq slot (codes "39998"))) [
    | inl a ↦
        let here : normalize_key key ≡ codes "39998:" =
          same ∙ ap (λ t. t ++ colon ∷ []) (text_eq→eq slot (codes "39998") a) in
        cc (rw here at named)
    | inr a ↦
        let here : normalize_key key ≡ codes "39999:" =
          same ∙ ap (λ t. t ++ colon ∷ []) (text_eq→eq slot (codes "39999") (rw a at which)) in
        cc (rw here at named)
  ]

  concept_key-IsNormal : IsNormal (concept_key (normalize_key key) (before colon key))
  concept_key-IsNormal = elim (Bool-cases (is_header key)) [
    | inl h ↦ bare-IsNormal (normalize_key key) (before colon key) (
        normalize_header key e h
        ∙ sym (text_eq→eq (before colon key) (codes "39998") (ground arith)))
    | inr h ↦ elim (apart key) [
      | inl same ↦
          bare-IsNormal (normalize_key key) (before colon key) (normalize_concept key e h ∙ same)
      | inr same ↦
          parts-IsNormal (normalize_key key) (before colon key) (behind colon key)
            (normalize_concept key e h ∙ same)
            (λ none_behind.
              nameless (before colon key)
                (normalize_concept key e h
                  ∙ same
                  ∙ ap (λ d. before colon key ++ colon ∷ d) none_behind)
                e)
    ]
  ]

pub parse_key-IsNormal : (key : Text) (k : Key) → parse_key key ≡ some k → IsNormal k
parse_key-IsNormal key k h =
    let (named, read) = parse_key-cases key k h in
    elim read [
      | inl (c, e) ↦ rw e (concept_key-IsNormal key named c)
      | inr (c, e) ↦ rw e (other_key-IsNormal key c)
    ]

same_parts :
    (a b : Key)
    → compare_keys a b ≡ Ordering.eq
    → (a.slot ≡ b.slot) × (compare_segs a.segs b.segs ≡ Ordering.eq)
unfolding compare_keys
same_parts a b h =
    (ground (arith, compare_text-eq a.slot b.slot), ground (arith, compare_text-eq a.slot b.slot))

-- Two keys that parsed and are as specific as one another are the same key, so the order by how
-- specific they are is total on keys.
pub parse_key-distinct :
    (key other : Text) (a b : Key)
    → parse_key key ≡ some a
    → parse_key other ≡ some b
    → compare_keys a b ≡ Ordering.eq
    → a ≡ b
parse_key-distinct key other a b ha hb h =
    let na = parse_key-IsNormal key a ha in
    let nb = parse_key-IsNormal other b hb in
    let (slot, segs) = same_parts a b h in
    let same : a.segs ≡ b.segs = same_segs a.segs b.segs na.no_empty_end nb.no_empty_end segs in
    let norm : a.norm ≡ b.norm =
      na.spelled
      ∙ ap (λ t. join colon t a.segs) slot
      ∙ ap (join colon b.slot) same
      ∙ sym nb.spelled in
    let one : some a ≡ some b =
      sym (parse_key_round key a ha) ∙ ap parse_key norm ∙ parse_key_round other b hb in
    cc
