-- ===== src/Billing/Views/Page/Listing.antt =====
-- `list_billing_plans` of app/services/subscription_view_service.py : the rows of its page.
use brainstorm_server.Common.{
  String, ◌≡◌, ap, subst, ◌⊎◌, inl, inr, Bool, true, false, not, none, some, List, [], ◌∷◌, arith,
  Bool-cases, Option-cases, All, All-append, All-weaken, In, In-append, In-append_right, All-itself,
}
use brainstorm_server.Common.Sorting.{All-sort_by, In-sort_by}
use brainstorm_server.Table.Where.{All-select}
use brainstorm_server.Flash.Catalog.{FlashPlan}
use brainstorm_server.Flash.Catalog.Reads.{Found}
use brainstorm_server.Billing.Tables.{Scheduling, BillingPlan}
use brainstorm_server.Billing.Repos.Nsec.{scheduling_with}
use brainstorm_server.Billing.Views.Page.{
  BillingPlanView, sellable_plan, sellable, free_row, plan_row, is_mapped, plan_rows, free_rows,
  page,
}
use brainstorm_server.Billing.Views.Page.Rows.{
  sort_by-passes_first, DefaultFirst, is_default_row, IsFree, IsSold, sellable-IsPair,
  free_rows-IsFree, plan_rows-IsSold,
}

module _ (checkout_url : String → String) (found : Found) (policies : List Scheduling)
    (active : List BillingPlan) where
  abbrev the_page : List BillingPlanView
  the_page = page checkout_url found policies active

  free_rows-In :
      (ps : List Scheduling) (p : Scheduling)
      → In p ps
      → is_mapped active p.id ≡ false
      → In (free_row p) (free_rows active ps)
  unfolding free_rows
  free_rows-In [] p i h = elim i [ ]
  free_rows-In (q ∷ ps) p (inl same) h =
      let unmapped : is_mapped active q.id ≡ false =
        subst (λ r. is_mapped active r.id ≡ false) same h in
      rw unmapped (inl (ap (free_row) same))
  free_rows-In (q ∷ ps) p (inr i) h = elim (Bool-cases (is_mapped active q.id)) [
    | inl e ↦ rw e (free_rows-In ps p i h)
    | inr e ↦ rw e (inr (free_rows-In ps p i h))
  ]

  sellable-In :
      (ms : List BillingPlan) (m : BillingPlan) (p : FlashPlan)
      → In m ms
      → sellable_plan found m ≡ some p
      → In (m, p) (sellable found ms)
  unfolding sellable
  sellable-In [] m p i h = elim i [ ]
  sellable-In (q ∷ ms) m p (inl same) h =
      let sold : sellable_plan found q ≡ some p =
        subst (λ r. sellable_plan found r ≡ some p) same h in
      rw sold (inl (ap (λ r. (r, p)) same))
  sellable-In (q ∷ ms) m p (inr i) h = elim (Option-cases (sellable_plan found q)) [
    | inl e ↦ rw e (sellable-In ms m p i h)
    | inr (r, e) ↦ rw e (inr (sellable-In ms m p i h))
  ]

  plan_rows-In :
      (pairs : List (BillingPlan × FlashPlan)) (m : BillingPlan) (flash : FlashPlan)
      (policy : Scheduling)
      → In (m, flash) pairs
      → scheduling_with m.scheduling_id policies ≡ some policy
      → In (plan_row checkout_url policy flash) (plan_rows checkout_url policies pairs)
  unfolding plan_rows
  plan_rows-In [] m flash policy i h = elim i [ ]
  plan_rows-In ((n, other) ∷ more) m flash policy (inl same) h =
      let mapping : m ≡ n = ap (λ r. r.0) same in
      let plan : flash ≡ other = ap (λ r. r.1) same in
      let sold : scheduling_with n.scheduling_id policies ≡ some policy =
        subst (λ (r : BillingPlan). scheduling_with r.scheduling_id policies ≡ some policy) mapping
          h in
      rw sold (inl (ap (plan_row checkout_url policy) plan))
  plan_rows-In ((n, other) ∷ more) m flash policy (inr i) h =
      elim (Option-cases (scheduling_with n.scheduling_id policies)) [
        | inl e ↦ rw e (plan_rows-In more m flash policy i h)
        | inr (q, e) ↦ rw e (inr (plan_rows-In more m flash policy i h))
      ]

  -- A mapping onto a public policy is sold, or Flash offers nothing that can be sold under its ids.
  abbrev pub IsOffered : BillingPlan → Type 0
  IsOffered m =
      (scheduling_with m.scheduling_id policies ≡ none)
      ⊎ ((sellable_plan found m ≡ none)
          ⊎ ((policy : Scheduling) × (flash : FlashPlan) × (scheduling_with m.scheduling_id policies
                ≡ some policy)
              × (sellable_plan found m ≡ some flash)
              × In (plan_row checkout_url policy flash) the_page))

  -- A policy is mapped, or stands on the page as free.
  abbrev pub IsListed : Scheduling → Type 0
  IsListed p = (is_mapped active p.id ≡ true) ⊎ In (free_row p) the_page

  abbrev pub IsRow : BillingPlanView → Type 0
  IsRow row = IsFree policies active row ⊎ IsSold checkout_url found policies active row

  pub page-IsRow : All IsRow the_page
  unfolding page
  page-IsRow = All-sort_by _ IsRow _ (
      All-append IsRow _ _
        (All-weaken _ IsRow (λ r h. inl h) _
          (free_rows-IsFree checkout_url found policies active policies (All-itself policies)))
        (All-weaken _ IsRow (λ r h. inr h) _
          (plan_rows-IsSold checkout_url found policies active _
            (All-sort_by _ _ _ (sellable-IsPair checkout_url found policies active active)))))

  pub policy-IsListed : (p : Scheduling) → In p policies → IsListed p
  unfolding page
  policy-IsListed p i = elim (Bool-cases (is_mapped active p.id)) [
    | inl e ↦ inl e
    | inr e ↦ inr (In-sort_by _ _ _ (In-append _ _ _ (free_rows-In policies p i e)))
  ]

  pub mapping-IsOffered : (m : BillingPlan) → In m active → IsOffered m
  unfolding page
  mapping-IsOffered m i = elim (Option-cases (scheduling_with m.scheduling_id policies)) [
    | inl e ↦ inl e
    | inr (policy, e) ↦ elim (Option-cases (sellable_plan found m)) [
      | inl none_sold ↦ inr (inl none_sold)
      | inr (flash, sold) ↦ inr (
          inr (
            policy,
            flash,
            e,
            sold,
            In-sort_by _ _ _ (
                In-append_right _ _ _ (
                  plan_rows-In _ m flash policy
                    (In-sort_by _ _ _ (sellable-In active m flash i sold)) e)),
          ))
    ]
  ]

  failing : (b : Bool) → not b ≡ true → b ≡ false
  failing b h = ground arith

  pub page-DefaultFirst : DefaultFirst the_page
  unfolding page
  page-DefaultFirst = (
    _,
    _,
    sort_by-passes_first is_default_row _,
    All-select is_default_row _,
    All-weaken _ _ (λ (r : BillingPlanView) h. failing r.is_default h) _
        (All-select (λ r. not (is_default_row r)) _),
  )
