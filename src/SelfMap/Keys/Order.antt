-- ===== src/SelfMap/Keys/Order.antt =====
-- How specific keys are, `compare_keys` of app/services/self_map_build.py, as an order, and the
-- winner by it.
use Prim.Native.Nat.{compare, Ordering}
use brainstorm_server.Common.{ℕ, ◌≡◌, ◌≢◌, refl, sym, ap, ◌∙◌, List, [], ◌∷◌, arith}
use brainstorm_server.Common.Text.{
  Text, compare_text, flip, compare_text-flip, compare_text-eq, compare_text_trans,
}
use brainstorm_server.SelfMap.Keys.{Key, compare_seg, ◌or_next◌, compare_segs, compare_keys}

compare_seg-flip : (u v : Text) → compare_seg v u ≡ flip (compare_seg u v)
compare_seg-flip [] [] = refl
compare_seg-flip [] (d ∷ ds) = refl
compare_seg-flip (c ∷ cs) [] = refl
compare_seg-flip (c ∷ cs) (d ∷ ds) = compare_text-flip (c ∷ cs) (d ∷ ds)

pub compare_seg-eq : (u v : Text) → compare_seg u v ≡ Ordering.eq → u ≡ v
compare_seg-eq [] [] h = refl
compare_seg-eq [] (d ∷ ds) h = cc
compare_seg-eq (c ∷ cs) [] h = cc
compare_seg-eq (c ∷ cs) (d ∷ ds) h = compare_text-eq (c ∷ cs) (d ∷ ds) h

compare_seg_trans :
    (u v w : Text)
    → compare_seg u v ≡ Ordering.lt
    → compare_seg v w ≡ Ordering.lt
    → compare_seg u w ≡ Ordering.lt
compare_seg_trans [] [] w h k = cc
compare_seg_trans [] (d ∷ ds) w h k = cc
compare_seg_trans (c ∷ cs) [] [] h k = cc
compare_seg_trans (c ∷ cs) [] (e ∷ es) h k = cc
compare_seg_trans (c ∷ cs) (d ∷ ds) [] h k = refl
compare_seg_trans (c ∷ cs) (d ∷ ds) (e ∷ es) h k = compare_text_trans (c ∷ cs) (d ∷ ds) (e ∷ es) h k

flip-or_next : (o p : Ordering) → flip (o or_next p) ≡ flip o or_next flip p
flip-or_next Ordering.lt p = refl
flip-or_next Ordering.eq p = refl
flip-or_next Ordering.gt p = refl

-- A comparison by one part and then by another is transitive, by the laws of the two.
lex_trans :
    (ab bc ac ab' bc' ac' : Ordering)
    → (ab ≡ Ordering.lt → bc ≡ Ordering.lt → ac ≡ Ordering.lt)
    → (ab ≡ Ordering.eq → ac ≡ bc)
    → (bc ≡ Ordering.eq → ac ≡ ab)
    → (ab' ≡ Ordering.lt → bc' ≡ Ordering.lt → ac' ≡ Ordering.lt)
    → ab or_next ab' ≡ Ordering.lt
    → bc or_next bc' ≡ Ordering.lt
    → ac or_next ac' ≡ Ordering.lt
lex_trans ab bc ac ab' bc' ac' t l r t' h k = ground arith

pub compare_segs-flip : (us vs : List Text) → compare_segs vs us ≡ flip (compare_segs us vs)
unfolding compare_segs
compare_segs-flip [] [] = refl
compare_segs-flip [] (v ∷ vs) =
    rw (compare_segs-flip [] vs) (rw (compare_seg-flip [] v) (sym (flip-or_next _ _)))
compare_segs-flip (u ∷ us) [] =
    rw (compare_segs-flip us []) (rw (compare_seg-flip u []) (sym (flip-or_next _ _)))
compare_segs-flip (u ∷ us) (v ∷ vs) =
    rw (compare_segs-flip us vs) (rw (compare_seg-flip u v) (sym (flip-or_next _ _)))

seg_lex :
    (u v w : Text) (o p q : Ordering)
    → (o ≡ Ordering.lt → p ≡ Ordering.lt → q ≡ Ordering.lt)
    → compare_seg u v or_next o ≡ Ordering.lt
    → compare_seg v w or_next p ≡ Ordering.lt
    → compare_seg u w or_next q ≡ Ordering.lt
seg_lex u v w o p q =
    lex_trans (compare_seg u v) (compare_seg v w) (compare_seg u w) o p q (compare_seg_trans u v w)
      (λ e. ap (λ t. compare_seg t w) (compare_seg-eq u v e))
      (λ e. ap (λ t. compare_seg u t) (sym (compare_seg-eq v w e)))

compare_segs_trans :
    (us vs ws : List Text)
    → compare_segs us vs ≡ Ordering.lt
    → compare_segs vs ws ≡ Ordering.lt
    → compare_segs us ws ≡ Ordering.lt
unfolding compare_segs
compare_segs_trans [] [] ws h k = cc
compare_segs_trans [] (v ∷ vs) [] h k = cc (compare_segs-flip [] (v ∷ vs))
compare_segs_trans [] (v ∷ vs) (w ∷ ws) h k = seg_lex [] v w _ _ _ (compare_segs_trans [] vs ws) h k
compare_segs_trans (u ∷ us) [] [] h k = cc
compare_segs_trans (u ∷ us) [] (w ∷ ws) h k = seg_lex u [] w _ _ _ (compare_segs_trans us [] ws) h k
compare_segs_trans (u ∷ us) (v ∷ vs) [] h k = seg_lex u v [] _ _ _ (compare_segs_trans us vs []) h k
compare_segs_trans (u ∷ us) (v ∷ vs) (w ∷ ws) h k =
    seg_lex u v w _ _ _ (compare_segs_trans us vs ws) h k

seg_same :
    (u v w : Text) (o p q : Ordering)
    → (o ≡ Ordering.eq → q ≡ p)
    → compare_seg u v or_next o ≡ Ordering.eq
    → compare_seg u w or_next q ≡ compare_seg v w or_next p
seg_same u v w o p q h e = ground (arith, compare_seg-eq u v)

-- Segments that compare as equal compare alike with any others.
compare_segs_same :
    (us vs ws : List Text)
    → compare_segs us vs ≡ Ordering.eq
    → compare_segs us ws ≡ compare_segs vs ws
unfolding compare_segs
compare_segs_same [] [] ws h = refl
compare_segs_same [] (v ∷ vs) [] h = sym (compare_segs-flip [] (v ∷ vs) ∙ ap flip h)
compare_segs_same [] (v ∷ vs) (w ∷ ws) h = seg_same [] v w _ _ _ (compare_segs_same [] vs ws) h
compare_segs_same (u ∷ us) [] [] h = h
compare_segs_same (u ∷ us) [] (w ∷ ws) h = seg_same u [] w _ _ _ (compare_segs_same us [] ws) h
compare_segs_same (u ∷ us) (v ∷ vs) [] h = seg_same u v [] _ _ _ (compare_segs_same us vs []) h
compare_segs_same (u ∷ us) (v ∷ vs) (w ∷ ws) h = seg_same u v w _ _ _ (compare_segs_same us vs ws) h

pub compare_keys-flip : (a b : Key) → compare_keys b a ≡ flip (compare_keys a b)
unfolding compare_keys
compare_keys-flip a b =
    ground (arith, compare_text-flip a.slot b.slot, compare_segs-flip a.segs b.segs)

module _ (l m n : ℕ) where
  rank_trans : compare m l ≡ Ordering.lt → compare n m ≡ Ordering.lt → compare n l ≡ Ordering.lt
  rank_trans h k = ground arith

  rank_same : compare m l ≡ Ordering.eq → compare n l ≡ compare n m
  rank_same h = let e : m ≡ l = ground arith in rw e refl

  rank_same_right : compare n m ≡ Ordering.eq → compare n l ≡ compare m l
  rank_same_right h = let e : n ≡ m = ground arith in rw e refl

pub compare_keys_trans :
    (a b c : Key)
    → compare_keys a b ≡ Ordering.lt
    → compare_keys b c ≡ Ordering.lt
    → compare_keys a c ≡ Ordering.lt
unfolding compare_keys
compare_keys_trans a b c =
    lex_trans (compare b.rank a.rank) (compare c.rank b.rank) (compare c.rank a.rank) _ _ _
      (rank_trans a.rank b.rank c.rank) (rank_same a.rank b.rank c.rank)
      (rank_same_right a.rank b.rank c.rank)
      (lex_trans (compare_text a.slot b.slot) (compare_text b.slot c.slot)
        (compare_text a.slot c.slot) _ _ _ (compare_text_trans a.slot b.slot c.slot)
        (λ e. ap (λ t. compare_text t c.slot) (compare_text-eq a.slot b.slot e))
        (λ e. ap (λ t. compare_text a.slot t) (sym (compare_text-eq b.slot c.slot e)))
        (compare_segs_trans a.segs b.segs c.segs))

compare_keys_same :
    (a b c : Key) → compare_keys a b ≡ Ordering.eq → compare_keys a c ≡ compare_keys b c
unfolding compare_keys
compare_keys_same a b c h =
    ground (arith, compare_text-eq a.slot b.slot, compare_segs_same a.segs b.segs c.segs)

-- What is not more specific than a key is not more specific than any that this is not beaten by.
pub not_beaten_trans :
    (a b c : Key)
    → compare_keys a b ≢ Ordering.lt
    → compare_keys b c ≢ Ordering.lt
    → compare_keys a c ≢ Ordering.lt
not_beaten_trans a b c h k l = grind (
  arith,
  compare_keys_trans a c b,
  compare_keys_same b c a,
  compare_keys-flip c b,
  compare_keys-flip b a,
  compare_keys-flip c a,
  compare_keys-flip b c,
)

-- No key is more specific than itself.
pub beats_irrefl : (a : Key) → compare_keys a a ≢ Ordering.lt
beats_irrefl a h = ground (arith, compare_keys-flip a a)
