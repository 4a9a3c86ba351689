-- ===== src/Billing/Views/Page/Sold.antt =====
-- The rows of `list_billing_plans` of app/services/subscription_view_service.py, told by what each
-- service offers by its own read.
use brainstorm_server.Common.{
  ℕ, ◌==◌, ==_iff, String, ◌≡◌, refl, sym, ap, ◌∙◌, ◌⊎◌, inl, inr, true, false, Option, none, some,
  List, [], ◌∷◌, arith, Bool-cases, Option-cases, All, All-weaken, All-itself, In, is_in, str_eq,
  str_eq_refl, eq_iff,
}
use brainstorm_server.Common.Int.{ℤ}
use brainstorm_server.Flash.Catalog.{FlashPlan}
use brainstorm_server.Flash.Catalog.Reads.{PlansRead, Found, plan_at}
use brainstorm_server.Flash.Catalog.Reads.Offers.{offered_by, OwnOffers}
use brainstorm_server.Billing.Tables.{Scheduling, BillingPlan}
use brainstorm_server.Billing.Repos.Nsec.{scheduling_with}
use brainstorm_server.Billing.Views.Page.{
  is_mapped, free_row, BillingPlanView, is_sellable, if_sellable, plan_row, service_ids, page,
}
use brainstorm_server.Billing.Views.Page.Rows.{IsFree, IsSold}
use brainstorm_server.Billing.Views.Page.Listing.{
  IsRow, IsOffered, IsListed, page-IsRow, mapping-IsOffered, policy-IsListed,
}

-- The plan has a price, and a signup URL that is not empty.
abbrev pub Sells : FlashPlan → Type 0
Sells p =
    (price : ℤ) × (url : String) × (p.amount_minor ≡ some price)
    × (p.signup_url ≡ some url)
    × (str_eq url "" ≡ false)

-- The plan has no price, or no signup URL, or an empty one.
abbrev pub Unsold : FlashPlan → Type 0
Unsold p = (p.amount_minor ≡ none) ⊎ ((p.signup_url ≡ none) ⊎ (p.signup_url ≡ some ""))

Sells-cases :
    (p : FlashPlan) → ((is_sellable p ≡ true) × Sells p) ⊎ ((is_sellable p ≡ false) × Unsold p)
Sells-cases p = elim (Option-cases p.amount_minor) [
  | inl e ↦ inr (rw e refl, inl e)
  | inr (price, e) ↦ elim (Option-cases p.signup_url) [
    | inl f ↦ inr (rw e (rw f refl), inr (inl f))
    | inr (url, f) ↦ elim (Bool-cases (str_eq url "")) [
      | inl g ↦ inr (rw e (rw f (rw g refl)), inr (inr (f ∙ ap some ((eq_iff url "").0 g))))
      | inr g ↦ inl (rw e (rw f (rw g refl)), (price, url, e, f, g))
    ]
  ]
]

service-is_in :
    (m : BillingPlan) (ms : List BillingPlan)
    → In m ms
    → is_in m.flash_service_id (service_ids ms) ≡ true
service-is_in m [] i = elim i [ ]
service-is_in m (n ∷ ms) (inl same) = rw same (rw (str_eq_refl n.flash_service_id) refl)
service-is_in m (n ∷ ms) (inr i) = rw (service-is_in m ms i) (ground arith)

-- No mapping sells the policy.
abbrev pub IsUnmapped : List BillingPlan → ℕ → Type 0
IsUnmapped active id = All (λ (m : BillingPlan). (m.scheduling_id == id) ≡ false) active

-- A mapping sells the policy.
abbrev pub IsMapped : List BillingPlan → ℕ → Type 0
IsMapped active id = (m : BillingPlan) × In m active × (m.scheduling_id ≡ id)

is_mapped-IsMapped :
    (active : List BillingPlan) (id : ℕ) → is_mapped active id ≡ true → IsMapped active id
unfolding is_mapped
is_mapped-IsMapped [] id h = absurd (ground (arith, h))
is_mapped-IsMapped (m ∷ ms) id h = elim (Bool-cases (m.scheduling_id == id)) [
  | inl e ↦ (m, inl refl, (==_iff m.scheduling_id id).0 e)
  | inr e ↦ let (n, i, at_id) = is_mapped-IsMapped ms id (rw e at h) in (n, inr i, at_id)
]

is_mapped-IsUnmapped :
    (active : List BillingPlan) (id : ℕ) → is_mapped active id ≡ false → IsUnmapped active id
unfolding is_mapped
is_mapped-IsUnmapped [] id h = tt
is_mapped-IsUnmapped (m ∷ ms) id h = elim (Bool-cases (m.scheduling_id == id)) [
  | inl e ↦ absurd (ground (arith, rw e at h))
  | inr e ↦ (e, is_mapped-IsUnmapped ms id (rw e at h))
]

module _ (policies : List Scheduling) (active : List BillingPlan) where
  -- A row, at zero, of a policy that no mapping sells.
  abbrev pub IsFreeRow : BillingPlanView → Type 0
  IsFreeRow row = (p : Scheduling) × In p policies × IsUnmapped active p.id × (row ≡ free_row p)

  -- A policy is mapped, or stands in the rows as free.
  abbrev pub HasFreeRow : List BillingPlanView → Scheduling → Type 0
  HasFreeRow rows p = IsMapped active p.id ⊎ In (free_row p) rows

  IsFree-IsFreeRow : (row : BillingPlanView) → IsFree policies active row → IsFreeRow row
  IsFree-IsFreeRow row (p, i, unmapped, e) = (p, i, is_mapped-IsUnmapped active p.id unmapped, e)

  pub page-HasFreeRow :
      (checkout_url : String → String) (found : Found)
      → All (HasFreeRow (page checkout_url found policies active)) policies
  page-HasFreeRow checkout_url found =
      All-weaken _ _ (λ p i. of_cases p (policy-IsListed checkout_url found policies active p i)) _
        (All-itself policies)
    where
      of_cases :
          (p : Scheduling)
          → IsListed checkout_url found policies active p
          → HasFreeRow (page checkout_url found policies active) p
      of_cases p (inl h) = inl (is_mapped-IsMapped active p.id h)
      of_cases p (inr h) = inr h

module _ (read_service_plans : String → PlansRead) where
  -- What the mapping's service offers, by its own read, under the mapping's plan id.
  abbrev pub offer_of : BillingPlan → Option FlashPlan
  offer_of m = offered_by (read_service_plans m.flash_service_id) m.flash_plan_id

  module _ (checkout_url : String → String) (policies : List Scheduling)
      (active : List BillingPlan) where
    -- A row of a mapping onto a public policy, with what its service offers for it, that can be sold.
    abbrev pub IsOnSale : BillingPlanView → Type 0
    IsOnSale row =
        (m : BillingPlan) × (policy : Scheduling) × (flash : FlashPlan) × In m active
        × (scheduling_with m.scheduling_id policies ≡ some policy)
        × (offer_of m ≡ some flash)
        × Sells flash
        × (row ≡ plan_row checkout_url policy flash)

    abbrev pub IsPageRow : BillingPlanView → Type 0
    IsPageRow row = IsFreeRow policies active row ⊎ IsOnSale row

    -- A mapping onto a public policy has its row, or its service offers nothing for it that can be sold.
    abbrev pub HasRow : List BillingPlanView → BillingPlan → Type 0
    HasRow rows m =
        (scheduling_with m.scheduling_id policies ≡ none)
        ⊎ ((offer_of m ≡ none)
            ⊎ ((flash : FlashPlan) × (offer_of m ≡ some flash)
                × (Unsold flash
                    ⊎ ((policy : Scheduling) × (scheduling_with m.scheduling_id policies
                          ≡ some policy)
                        × In (plan_row checkout_url policy flash) rows))))

    module _ (found : Found) (own : OwnOffers read_service_plans (service_ids active) found) where
      offer_of-In :
          (m : BillingPlan)
          → In m active
          → plan_at m.flash_service_id m.flash_plan_id found ≡ offer_of m
      offer_of-In m i = own m.flash_service_id m.flash_plan_id ∙ rw (service-is_in m active i) refl

      IsSold-IsOnSale :
          (row : BillingPlanView) → IsSold checkout_url found policies active row → IsOnSale row
      IsSold-IsOnSale row (m, policy, flash, i, mapped, at_ids, sells, e) =
          elim (Sells-cases flash) [
            | inl (y, priced) ↦
                (m, policy, flash, i, mapped, sym (offer_of-In m i) ∙ at_ids, priced, e)
            | inr (n, unsold) ↦ absurd (ground (arith, sells, n))
          ]

      IsRow-IsPageRow :
          (row : BillingPlanView) → IsRow checkout_url found policies active row → IsPageRow row
      IsRow-IsPageRow row (inl free) = inl (IsFree-IsFreeRow policies active row free)
      IsRow-IsPageRow row (inr sold) = inr (IsSold-IsOnSale row sold)

      -- What `if_sellable` drops is not sold.
      if_sellable-cases :
          (o : Option FlashPlan)
          → if_sellable o ≡ none
          → (o ≡ none) ⊎ ((p : FlashPlan) × (o ≡ some p) × Unsold p)
      if_sellable-cases none h = inl refl
      if_sellable-cases (some p) h = elim (Sells-cases p) [
        | inl (y, priced) ↦ absurd (ground (arith, rw y at h))
        | inr (n, unsold) ↦ inr (p, refl, unsold)
      ]

      if_sellable-some :
          (o : Option FlashPlan) (p : FlashPlan) → if_sellable o ≡ some p → o ≡ some p
      if_sellable-some none p h = absurd (ground (arith, h))
      if_sellable-some (some q) p h = elim (Bool-cases (is_sellable q)) [
        | inl e ↦ cc (rw e at h)
        | inr e ↦ absurd (ground (arith, rw e at h))
      ]

      IsOffered-HasRow :
          (m : BillingPlan)
          → In m active
          → IsOffered checkout_url found policies active m
          → HasRow (page checkout_url found policies active) m
      IsOffered-HasRow m i (inl unmapped) = inl unmapped
      IsOffered-HasRow m i (inr (inl unsold)) = elim (if_sellable-cases _ unsold) [
        | inl e ↦ inr (inl (sym (offer_of-In m i) ∙ e))
        | inr (p, e, unsellable) ↦ inr (inr (p, sym (offer_of-In m i) ∙ e, inl unsellable))
      ]
      IsOffered-HasRow m i (inr (inr (policy, flash, mapped, sold, here))) = inr (
          inr (
            flash,
            sym (offer_of-In m i) ∙ if_sellable-some _ flash sold,
            inr (policy, mapped, here),
          ))

      pub page-IsPageRow : All IsPageRow (page checkout_url found policies active)
      page-IsPageRow =
          All-weaken _ _ IsRow-IsPageRow _ (page-IsRow checkout_url found policies active)

      pub page-HasRow : All (HasRow (page checkout_url found policies active)) active
      page-HasRow =
          All-weaken _ _
            (λ m i. IsOffered-HasRow m i (mapping-IsOffered checkout_url found policies active m i))
            _ (All-itself active)
