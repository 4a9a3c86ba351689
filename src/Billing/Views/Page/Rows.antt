-- ===== src/Billing/Views/Page/Rows.antt =====
-- What the pricing page of app/services/subscription_view_service.py lists, and in which order.
use brainstorm_server.Common.{
  String, ◌≡◌, refl, ap, subst, inl, inr, Bool, true, false, not, ◌&&◌, Option, none, some, List,
  [], ◌∷◌, ◌++◌, arith, Bool-cases, Option-cases, All, All-weaken, In,
}
use brainstorm_server.Common.Sorting.{insert, sort_by}
use brainstorm_server.Table.Where.{select, All-select}
use brainstorm_server.Flash.Catalog.{FlashPlan}
use brainstorm_server.Flash.Catalog.Reads.{Found, plan_at}
use brainstorm_server.Billing.Tables.{Scheduling, BillingPlan}
use brainstorm_server.Billing.Repos.Nsec.{scheduling_with}
use brainstorm_server.Billing.Views.Page.{
  BillingPlanView, is_sellable, if_sellable, sellable_plan, sellable, free_row, plan_row, is_mapped,
  plan_rows, free_rows,
}

-- Sorting by a test puts the items that pass it first, and leaves the order as it is otherwise.
module _ {A : Type 0} (t : A → Bool) where
  abbrev passes_first : A → A → Bool
  passes_first a b = t a && not (t b)

  insert-passing : (x : A) (ys : List A) → t x ≡ true → insert passes_first x ys ≡ x ∷ ys
  unfolding insert
  insert-passing x [] h = refl
  insert-passing x (y ∷ ys) h = ground arith

  insert-failing :
      (x : A) (ds ns : List A)
      → t x ≡ false
      → All (λ d. t d ≡ true) ds
      → All (λ n. t n ≡ false) ns
      → insert passes_first x (ds ++ ns) ≡ ds ++ x ∷ ns
  unfolding insert
  insert-failing x [] [] h d n = refl
  insert-failing x [] (y ∷ ns) h d n = rw n.0 refl
  insert-failing x (y ∷ ds) ns h d n =
      rw d.0 (rw h (ap (λ l. y ∷ l) (insert-failing x ds ns h d.1 n)))

  failing : (b : Bool) → not b ≡ true → b ≡ false
  failing b h = ground arith

  pub sort_by-passes_first :
      (xs : List A) → sort_by passes_first xs ≡ select t xs ++ select (λ x. not (t x)) xs
  unfolding sort_by select
  sort_by-passes_first [] = refl
  sort_by-passes_first (x ∷ xs) = elim (Bool-cases (t x)) [
    | inl e ↦
        rw (sort_by-passes_first xs)
          (rw (insert-passing x (select t xs ++ select (λ x. not (t x)) xs) e) (rw e refl))
    | inr e ↦ rw (sort_by-passes_first xs) (
        rw
          (insert-failing x (select t xs) (select (λ x. not (t x)) xs) e (All-select t xs)
            (All-weaken _ _ (λ y h. failing (t y) h) _ (All-select (λ x. not (t x)) xs)))
          (rw e refl))
  ]

-- The rows of the default policy stand before the others.
abbrev pub DefaultFirst : List BillingPlanView → Type 0
DefaultFirst rows =
    (d : List BillingPlanView) × (n : List BillingPlanView) × (rows ≡ d ++ n)
    × All (λ (r : BillingPlanView). r.is_default ≡ true) d
    × All (λ (r : BillingPlanView). r.is_default ≡ false) n

abbrev pub is_default_row : BillingPlanView → Bool
is_default_row r = r.is_default

module _ (policies : List Scheduling) (active : List BillingPlan) where
  -- A row of a policy that no mapping sells.
  abbrev pub IsFree : BillingPlanView → Type 0
  IsFree row =
      (p : Scheduling) × In p policies × (is_mapped active p.id ≡ false) × (row ≡ free_row p)

module _ (checkout_url : String → String) (found : Found) (policies : List Scheduling)
    (active : List BillingPlan) where
  -- A row of a mapping, with what Flash offers under its ids: a plan with a price and a signup URL.
  abbrev pub IsSold : BillingPlanView → Type 0
  IsSold row =
      (m : BillingPlan) × (policy : Scheduling) × (flash : FlashPlan) × In m active
      × (scheduling_with m.scheduling_id policies ≡ some policy)
      × (plan_at m.flash_service_id m.flash_plan_id found ≡ some flash)
      × (is_sellable flash ≡ true)
      × (row ≡ plan_row checkout_url policy flash)

  -- A mapping and what Flash offers for it.
  abbrev pub IsPair : List BillingPlan → BillingPlan × FlashPlan → Type 0
  IsPair ms pair =
      In pair.0 ms
      × (plan_at pair.0.flash_service_id pair.0.flash_plan_id found ≡ some pair.1)
      × (is_sellable pair.1 ≡ true)

  if_sellable_lem :
      (o : Option FlashPlan) (p : FlashPlan)
      → if_sellable o ≡ some p
      → (o ≡ some p) × (is_sellable p ≡ true)
  if_sellable_lem none p h = absurd (ground (arith, h))
  if_sellable_lem (some q) p h = elim (Bool-cases (is_sellable q)) [
    | inl e ↦
        let same : q ≡ p = cc (rw e at h) in
        (ap some same, subst (λ x. is_sellable x ≡ true) same e)
    | inr e ↦ absurd (ground (arith, rw e at h))
  ]

  IsPair-more :
      (m : BillingPlan) (ms : List BillingPlan) (pair : BillingPlan × FlashPlan)
      → IsPair ms pair
      → IsPair (m ∷ ms) pair
  IsPair-more m ms pair (i, h, k) = (inr i, h, k)

  pub sellable-IsPair : (ms : List BillingPlan) → All (IsPair ms) (sellable found ms)
  unfolding sellable
  sellable-IsPair [] = tt
  sellable-IsPair (m ∷ ms) =
      let rest =
        All-weaken (IsPair ms) (IsPair (m ∷ ms)) (IsPair-more m ms) _ (sellable-IsPair ms) in
      elim (Option-cases (sellable_plan found m)) [
        | inl e ↦ rw e rest
        | inr (p, e) ↦
            let (at_ids, sells) = if_sellable_lem _ p e in rw e ((inl refl, at_ids, sells), rest)
      ]

  pub free_rows-IsFree :
      (ps : List Scheduling)
      → All (λ p. In p policies) ps
      → All (IsFree policies active) (free_rows active ps)
  unfolding free_rows
  free_rows-IsFree [] h = tt
  free_rows-IsFree (p ∷ ps) h = elim (Bool-cases (is_mapped active p.id)) [
    | inl e ↦ rw e (free_rows-IsFree ps h.1)
    | inr e ↦ rw e ((p, h.0, e, refl), free_rows-IsFree ps h.1)
  ]

  pub plan_rows-IsSold :
      (pairs : List (BillingPlan × FlashPlan))
      → All (IsPair active) pairs
      → All IsSold (plan_rows checkout_url policies pairs)
  unfolding plan_rows
  plan_rows-IsSold [] h = tt
  plan_rows-IsSold ((m, flash) ∷ more) ((i, at_ids, sells), h) =
      elim (Option-cases (scheduling_with m.scheduling_id policies)) [
        | inl e ↦ rw e (plan_rows-IsSold more h)
        | inr (policy, e) ↦
            rw e ((m, policy, flash, i, e, at_ids, sells, refl), plan_rows-IsSold more h)
      ]
