-- ===== src/Table/Where.antt =====
-- Statements whose WHERE is a test on the row, not a key: SELECT, UPDATE and their counts.
use brainstorm_server.Common.{
  ℕ, suc, ◌≡◌, refl, ap, Bool-cases, inl, inr, Bool, true, false, List, [], ◌∷◌, arith, length,
  if◌then◌else◌,
}
pub use brainstorm_server.Common.{All}

module _ {ℓ} {A : Type ℓ} where
  -- SELECT ... WHERE test.
  unfoldable pub select : (A → Bool) → List A → List A
  select test [] = []
  select test (r ∷ rs) = let rest = select test rs in if test r then r ∷ rest else rest

  -- UPDATE ... SET f WHERE test.
  unfoldable pub update : (A → Bool) → (A → A) → List A → List A
  update test f [] = []
  update test f (r ∷ rs) = (if test r then f r else r) ∷ update test f rs

  -- The `rowcount` of that UPDATE.
  unfoldable pub count : (A → Bool) → List A → ℕ
  count test [] = 0
  count test (r ∷ rs) = let rest = count test rs in if test r then suc rest else rest

  pub length-select : (test : A → Bool) (rs : List A) → length (select test rs) ≡ count test rs
  unfolding select count
  length-select test [] = refl
  length-select test (r ∷ rs) = ground (arith, length-select test rs)

  -- Every selected row passes the test.
  pub All-select : (test : A → Bool) (rs : List A) → All (λ r. test r ≡ true) (select test rs)
  unfolding select
  All-select test [] = tt
  All-select test (r ∷ rs) = ground (arith, All-select test rs)

  -- An update whose result fails its own test leaves nothing to select.
  pub count-update :
      (test : A → Bool) (f : A → A)
      → ((r : A) → test (f r) ≡ false)
      → (rs : List A) → count test (update test f rs) ≡ 0
  unfolding update count
  count-update test f settles [] = refl
  count-update test f settles (r ∷ rs) = ground (arith, count-update test f settles rs, settles r)

  -- An update that no row passes changes nothing.
  pub update-none :
      (test : A → Bool) (f : A → A) (rs : List A) → count test rs ≡ 0 → update test f rs ≡ rs
  unfolding count update
  update-none test f [] n = refl
  update-none test f (r ∷ rs) n = elim (Bool-cases (test r)) [
    | inl y ↦ absurd (ground arith)
    | inr y ↦ rw y (ap (λ more. r ∷ more) (update-none test f rs (ground arith)))
  ]

  if_both {κ} : (P : A → Type κ) (b : Bool) (x y : A) → P x → P y → P (if b then x else y)
  if_both P true x y px py = px
  if_both P false x y px py = py

  pub All-update {κ} :
      {P : A → Type κ} (test : A → Bool) (f : A → A)
      → ((r : A) → P r → P (f r))
      → (rs : List A) → All P rs
      → All P (update test f rs)
  unfolding update
  All-update test f keeps [] h = tt
  All-update {P} test f keeps (r ∷ rs) h =
      (if_both P (test r) (f r) r (keeps r h.0) h.0, All-update test f keeps rs h.1)
