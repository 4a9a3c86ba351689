-- ===== src/Table.antt =====
-- A database table with a text as its primary key: the SELECT, UPDATE and INSERT ... ON CONFLICT
-- that app/repos issues against `brainstorm_nsec` and `user_subscription`, as lists of rows in
-- insertion order. The laws below are what the components use; they state each write by the reads
-- that follow it.
pub mod Where
use brainstorm_server.Common.{
  String, ◌≡◌, refl, Bool, true, false, Option, none, some, List, [], ◌∷◌, arith, str_eq, eq_iff,
  str_eq_refl, if◌then◌else◌,
}
use mathlib.Core.Option
use mathlib.Core.List.{◌++◌}

module _ {ℓ} {A : Type ℓ} (key : A → String) where
  -- SELECT ... WHERE key = k, then `scalar_one_or_none`.
  unfoldable pub find : String → List A → Option A
  find k [] = none
  find k (r ∷ rs) = if str_eq (key r) k then some r else find k rs

  -- UPDATE ... SET f WHERE key = k.
  unfoldable pub modify : String → (A → A) → List A → List A
  modify k f [] = []
  modify k f (r ∷ rs) = (if str_eq (key r) k then f r else r) ∷ modify k f rs

  -- INSERT row ON CONFLICT (key) DO UPDATE SET f.
  unfoldable pub upsert : A → (A → A) → List A → List A
  upsert new f [] = new ∷ []
  upsert new f (r ∷ rs) = if str_eq (key r) (key new) then f r ∷ rs else r ∷ upsert new f rs

  pub find-key : (k : String) (rs : List A) (r : A) → find k rs ≡ some r → key r ≡ k
  unfolding find
  find-key k [] r h = cc
  find-key k (x ∷ rs) r h = ground (arith, find-key k rs r, eq_iff (key x) k)

  -- An UPDATE that leaves keys alone is seen through its own key only.
  pub find-modify :
      (k j : String) (f : A → A)
      → ((r : A) → key (f r) ≡ key r)
      → (rs : List A)
      → find j (modify k f rs) ≡ (if str_eq k j then Option.map f (find j rs) else find j rs)
  unfolding find modify
  find-modify k j f keeps [] = ground arith
  find-modify k j f keeps (r ∷ rs) = ground (
    arith,
    find-modify k j f keeps rs,
    keeps r,
    eq_iff (key r) k,
    eq_iff (key r) j,
    eq_iff (key (f r)) j,
    eq_iff k j,
  )

  pub find-upsert :
      (new : A) (f : A → A) (j : String)
      → ((r : A) → key (f r) ≡ key r)
      → (rs : List A)
      → find j (upsert new f rs) ≡ (
          if str_eq (key new) j
          then some (Option.get_or (Option.map f (find (key new) rs)) new)
          else find j rs)
  unfolding find upsert
  find-upsert new f j keeps [] = ground arith
  find-upsert new f j keeps (r ∷ rs) = ground (
    arith,
    find-upsert new f j keeps rs,
    keeps r,
    eq_iff (key r) (key new),
    eq_iff (key r) j,
    eq_iff (key (f r)) j,
    eq_iff (key new) j,
  )
