-- ===== src/Billing/Views/Page/Answer.antt =====
-- How `list_billing_plans` of app/services/subscription_view_service.py ends.
use brainstorm_server.Common.{
  String, ◌≡◌, refl, subst, inl, inr, ◌&&◌, ◌++◌, not, is_some, Bool, true, false, arith, All-In,
  Option, none, List, [], ◌∷◌, Option-cases, All, In,
}
use brainstorm_server.Table.Where.{select}
use brainstorm_server.Flash.Catalog.Reads.{
  PlansRead, credentials_refused, Found, put_read, read_services_from, read_plans_for_services,
}
use brainstorm_server.Billing.Tables.{Scheduling, BillingPlan}
use brainstorm_server.Billing.Repos.Nsec.{scheduling_with}
use brainstorm_server.Billing.Session.{Session, ok, raise, flash_credential_error}
use brainstorm_server.Billing.Views.Page.{BillingPlanView, page, service_ids, list_billing_plans}
use brainstorm_server.Billing.Views.Page.Listing.{page-DefaultFirst}
use brainstorm_server.Flash.Catalog.Reads.Offers.{read_services-OwnOffers}
use brainstorm_server.Billing.Views.Page.Sold.{
  IsPageRow, HasFreeRow, HasRow, page-IsPageRow, page-HasFreeRow, page-HasRow,
}
use brainstorm_server.Billing.Views.Page.Rows.{DefaultFirst}

abbrev pub is_refusal : PlansRead → Bool
is_refusal credentials_refused = true
is_refusal _ = false

module _ (read_service_plans : String → PlansRead) where
  -- Flash refuses our credentials at one of the reads.
  abbrev pub IsRefused : String → Type 0
  IsRefused service_id = read_service_plans service_id ≡ credentials_refused

  -- Flash does not refuse our credentials at the read.
  abbrev pub IsAnswered : String → Type 0
  IsAnswered service_id = is_refusal (read_service_plans service_id) ≡ false

  refused_lem :
      (ids : List String) (id : String) (start : Found)
      → In id ids
      → IsRefused id
      → read_services_from read_service_plans ids start ≡ none
  unfolding read_services_from
  refused_lem [] id start i h = elim i [ ]
  refused_lem (x ∷ ids) id start (inl same) h =
      let refused : read_service_plans x ≡ credentials_refused = subst IsRefused same h in
      let stop : put_read x (read_service_plans x) start ≡ none = rw refused refl in rw stop refl
  refused_lem (x ∷ ids) id start (inr i) h =
      elim (Option-cases (put_read x (read_service_plans x) start)) [
        | inl e ↦ rw e refl
        | inr (more, e) ↦ rw e (refused_lem ids id more i h)
      ]

module _ (read_service_plans : String → PlansRead) (checkout_url : String → String)
    (s : Session) where
  -- The public policies, the default before the others.
  abbrev pub offered_policies : List Scheduling
  offered_policies =
      select (λ (p : Scheduling). p.is_public && p.is_default) s.db.schedulings
      ++ select (λ (p : Scheduling). p.is_public && not p.is_default) s.db.schedulings

  -- The active mappings onto public policies.
  abbrev pub active_plans : List BillingPlan
  active_plans =
      select (λ (m : BillingPlan). is_some (scheduling_with m.scheduling_id offered_policies))
        (select (λ (m : BillingPlan). m.is_active) s.db.plans)

  -- What the reads of the services give, together.
  abbrev pub services_read : Option Found
  services_read = read_plans_for_services read_service_plans (service_ids active_plans)

  -- The page is given, and nothing changes.
  abbrev pub PageGiven : List BillingPlanView → Type 0
  PageGiven rows =
      (list_billing_plans checkout_url read_service_plans true s ≡ (ok rows, s))
      × All (IsPageRow read_service_plans checkout_url offered_policies active_plans) rows
      × All (HasFreeRow offered_policies active_plans rows) offered_policies
      × All (HasRow read_service_plans checkout_url offered_policies active_plans rows) active_plans
      × DefaultFirst rows

  -- With payments on, and no service of an active mapping onto a public policy whose own read Flash refuses
  -- our credentials at: the page is given and nothing changes. Each row is that of a public policy that no
  -- such mapping sells, at zero, or that of such a mapping, with the plan that its service's own read has
  -- under its id: one with a price and a signup URL. Every public policy that is not mapped has its row, and
  -- so has every such mapping whose service's own read has such a plan, whatever the reads of the other
  -- services give. The rows of the default policy stand first.
  pub list_billing_plans_lem :
      All (IsAnswered read_service_plans) (service_ids active_plans)
      → (rows : List BillingPlanView) × PageGiven rows
  unfolding list_billing_plans
  list_billing_plans_lem answered =
      let ps = offered_policies in
      let ms = active_plans in
      elim (read_services-OwnOffers read_service_plans (service_ids active_plans)) [
        | inl (id, i, refusal, stop) ↦
            let refused : true ≡ false =
              subst (λ r. is_refusal r ≡ false) refusal
                (All-In (IsAnswered read_service_plans) id _ answered i) in
            absurd (ground (arith, refused))
        | inr (found, given, own) ↦ (
          page checkout_url found ps ms,
          (
            rw given refl,
            page-IsPageRow read_service_plans checkout_url ps ms found own,
            page-HasFreeRow ps ms checkout_url found,
            page-HasRow read_service_plans checkout_url ps ms found own,
            page-DefaultFirst checkout_url found ps ms,
          ),
        )
      ]

  -- With payments on, where Flash refuses our credentials at the read of one service that an active mapping
  -- onto a public policy names, there is no page at all: `FlashCredentialError` escapes.
  pub list_billing_plans-refused :
      (m : BillingPlan)
      → In m.flash_service_id (service_ids active_plans)
      → IsRefused read_service_plans m.flash_service_id
      → list_billing_plans checkout_url read_service_plans true s
        ≡ (raise flash_credential_error, s)
  unfolding list_billing_plans
  list_billing_plans-refused m i h =
      let escaped : services_read ≡ none =
        refused_lem read_service_plans (service_ids active_plans) m.flash_service_id [] i h in
      rw escaped refl
