-- ===== src/SelfMap/Keys/Winner.antt =====
-- The winner of a probe, `winner_of` of app/services/self_map_build.py: the most specific candidate
-- that matches.
use Prim.Native.Nat.{Ordering}
use brainstorm_server.Common.{
  ◌≡◌, refl, ◌⊎◌, inl, inr, true, false, ◌&&◌, Option, none, some, List, [], ◌∷◌, arith, Bool-cases,
  In,
}
use brainstorm_server.Table.Where.{All}
use brainstorm_server.SelfMap.Keys.{
  Key, Probe, compare_keys, matches, more_specific, winner_from, winner_of,
}
use brainstorm_server.SelfMap.Keys.Order.{beats_irrefl, compare_keys_trans, not_beaten_trans}

module _ {T : Type 0} (key_of : T → Key) (probe : Probe) where
  abbrev pub Beats : T → T → Type 0
  Beats c b = compare_keys (key_of c) (key_of b) ≡ Ordering.lt

  abbrev pub NoMatch : T → Type 0
  NoMatch c = matches (key_of c) probe ≡ false

  -- No candidate that matches is more specific.
  abbrev pub Unbeaten : T → List T → Type 0
  Unbeaten b = All (λ c. NoMatch c ⊎ (¬ Beats c b))

  -- There is no candidate that matches, or this is one, and none is more specific.
  abbrev pub IsWinner : List T → Option T → Type 0
  IsWinner cs none = All NoMatch cs
  IsWinner cs (some b) = In b cs × (matches (key_of b) probe ≡ true) × Unbeaten b cs

  abbrev NotBeatenBy : Option T → T → Type 0
  NotBeatenBy none b = Unit
  NotBeatenBy (some a) b = ¬ Beats a b

  -- The same of a scan that has a best candidate already.
  abbrev From : Option T → List T → Option T → Type 0
  From best cs none = (best ≡ none) × All NoMatch cs
  From best cs (some b) =
      ((In b cs × (matches (key_of b) probe ≡ true)) ⊎ (best ≡ some b))
      × Unbeaten b cs
      × NotBeatenBy best b

  passed_over :
      (c : T) (best : Option T) (b : T)
      → (matches (key_of c) probe && more_specific key_of c best) ≡ false
      → NotBeatenBy best b
      → NoMatch c ⊎ (¬ Beats c b)
  passed_over c none b e h = inl (ground arith)
  passed_over c (some a) b e h = elim (Bool-cases (matches (key_of c) probe)) [
    | inr m ↦ inl m
    | inl m ↦ inr (not_beaten_trans (key_of c) (key_of a) (key_of b) (λ k. ground arith) h)
  ]

  skip :
      (c : T) (best : Option T) (cs : List T) (r : Option T)
      → (matches (key_of c) probe && more_specific key_of c best) ≡ false
      → From best cs r
      → From best (c ∷ cs) r
  skip c none cs none e (f, rest) = (refl, (ground arith, rest))
  skip c (some a) cs none e (f, rest) = cc
  skip c best cs (some b) e (inl (i, m), rest, h) =
      (inl (inr i, m), (passed_over c best b e h, rest), h)
  skip c best cs (some b) e (inr same, rest, h) = (inr same, (passed_over c best b e h, rest), h)

  replaced :
      (c : T) (best : Option T) (b : T)
      → more_specific key_of c best ≡ true
      → ¬ Beats c b
      → NotBeatenBy best b
  replaced c none b e h = tt
  replaced c (some a) b e h =
      λ k. h (compare_keys_trans (key_of c) (key_of a) (key_of b) (ground arith) k)

  take_it :
      (c : T) (best : Option T) (cs : List T) (r : Option T)
      → matches (key_of c) probe ≡ true
      → more_specific key_of c best ≡ true
      → From (some c) cs r
      → From best (c ∷ cs) r
  take_it c best cs none m e (f, rest) = cc
  take_it c best cs (some b) m e (inl (i, n), rest, h) =
      (inl (inr i, n), (inr h, rest), replaced c best b e h)
  take_it c best cs (some b) m e (inr same, rest, h) =
      let here : b ≡ c = cc in (inl (inl here, rw here m), (inr h, rest), replaced c best b e h)

  winner_from-From :
      (best : Option T) (cs : List T) → From best cs (winner_from key_of best cs probe)
  unfolding winner_from
  winner_from-From none [] = (refl, tt)
  winner_from-From (some a) [] = (inr refl, tt, beats_irrefl (key_of a))
  winner_from-From best (c ∷ cs) =
      elim (Bool-cases (matches (key_of c) probe && more_specific key_of c best)) [
        | inl e ↦
            rw e (take_it c best cs _ (ground arith) (ground arith) (winner_from-From (some c) cs))
        | inr e ↦ rw e (skip c best cs _ e (winner_from-From best cs))
      ]

  finish : (cs : List T) (r : Option T) → From none cs r → IsWinner cs r
  finish cs none (e, rest) = rest
  finish cs (some b) (inl (i, m), rest, h) = (i, m, rest)
  finish cs (some b) (inr e, rest, h) = cc

  -- The winner is a candidate that matches, and no candidate that matches is more specific; there is
  -- none only where no candidate matches.
  pub winner_of-IsWinner : (cs : List T) → IsWinner cs (winner_of key_of cs probe)
  winner_of-IsWinner cs = finish cs _ (winner_from-From none cs)
