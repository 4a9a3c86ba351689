-- ===== src/Common/Sorting.antt =====
-- Python's `sorted` and `list.sort`, which keep the order of items with equal keys.
use mathlib.Core.Logic.{inl, inr}
use mathlib.Core.Bool.{Bool}
use mathlib.Core.List.{List, [], ◌∷◌}
use brainstorm_server.Common.Lists.{All, In}
use brainstorm_server.Common.Tests.{if◌then◌else◌, Bool-cases}

-- `precedes y x`: the key of `y` is less than that of `x`.
module _ {ℓ} {A : Type ℓ} (precedes : A → A → Bool) where
  unfoldable pub insert : A → List A → List A
  insert x [] = x ∷ []
  insert x (y ∷ ys) = let rest = insert x ys in if precedes y x then y ∷ rest else x ∷ y ∷ ys

  unfoldable pub sort_by : List A → List A
  unfolding insert
  sort_by [] = []
  sort_by (x ∷ xs) = insert x (sort_by xs)

  All-insert {κ} : (P : A → Type κ) (x : A) (ys : List A) → P x → All P ys → All P (insert x ys)
  unfolding insert
  All-insert P x [] p h = (p, tt)
  All-insert P x (y ∷ ys) p h = elim (Bool-cases (precedes y x)) [
    | inl e ↦ rw e (h.0, All-insert P x ys p h.1)
    | inr e ↦ rw e (p, h)
  ]

  -- What holds of all items holds of the sorted ones.
  pub All-sort_by {κ} : (P : A → Type κ) (xs : List A) → All P xs → All P (sort_by xs)
  unfolding sort_by
  All-sort_by P [] h = tt
  All-sort_by P (x ∷ xs) h = All-insert P x (sort_by xs) h.0 (All-sort_by P xs h.1)

module _ {A : Type 0} (precedes : A → A → Bool) where
  In-later :
      (z x y : A) (ys rest : List A)
      → (In z (x ∷ ys) → In z rest)
      → In z (x ∷ y ∷ ys)
      → In z (y ∷ rest)
  In-later z x y ys rest f (inl same) = inr (f (inl same))
  In-later z x y ys rest f (inr (inl same)) = inl same
  In-later z x y ys rest f (inr (inr later)) = inr (f (inr later))

  In-insert : (z x : A) (ys : List A) → In z (x ∷ ys) → In z (insert precedes x ys)
  unfolding insert
  In-insert z x [] h = h
  In-insert z x (y ∷ ys) h = elim (Bool-cases (precedes y x)) [
    | inr e ↦ rw e h
    | inl e ↦ rw e (In-later z x y ys (insert precedes x ys) (In-insert z x ys) h)
  ]

  -- Every item stands in the sorted list.
  pub In-sort_by : (z : A) (xs : List A) → In z xs → In z (sort_by precedes xs)
  unfolding sort_by
  In-sort_by z [] h = elim h [ ]
  In-sort_by z (x ∷ xs) (inl same) = In-insert z x (sort_by precedes xs) (inl same)
  In-sort_by z (x ∷ xs) (inr later) =
      In-insert z x (sort_by precedes xs) (inr (In-sort_by z xs later))
