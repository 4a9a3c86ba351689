-- ===== src/Billing/Views/Subscriber.antt =====
-- What the subscriber's view of app/services/subscription_view_service.py shows.
use brainstorm_server.Common.{
  ℕ, String, ◌≡◌, refl, ◌⊎◌, inl, inr, Bool, true, false, not, Option, none, some, List, [], ◌∷◌,
  str_eq, if◌then◌else◌, Bool-cases, is_in, ◌==◌, or_else,
}
use brainstorm_server.Table.{find}
use brainstorm_server.Table.Where.{select}
use brainstorm_server.Flash.{Datetime}
use brainstorm_server.Billing.Tables.{Db, UserSubscription, BillingPlan, Scheduling}
use brainstorm_server.Billing.Session.{Session, ok}
use brainstorm_server.Billing.Repos.Nsec.{nsec_of, scheduling_with}
use brainstorm_server.Billing.Repos.Plans.{first_plan}
use brainstorm_server.Billing.Repos.Subscriptions.{subscription_of, subscription_key}
use brainstorm_server.Billing.Repos.Candidates.Abandon.{matches}
use brainstorm_server.Billing.Views.{
  SubscriptionPlanView, known_or, or_default, policy_with, plan_of, plan_view, policy_view,
  scheduling_id_of, first_default, SubscriptionView, abandon_rule, translate, by_policy,
  resolve_policy, unless_abandoned, view_of, subscriber_plan_view, read_subscription_view,
}

-- The statuses that the UI knows.
abbrev pub ui_statuses : List String
ui_statuses = "active" ∷ "pending" ∷ "grace" ∷ "canceled" ∷ "none" ∷ []

if_either {ℓ κ} :
    {A : Type ℓ} (P : A → Type κ) (b : Bool) (x y : A) → P x → P y → P (if b then x else y)
if_either P true x y px py = px
if_either P false x y px py = py

abbrev IsKnown : Bool → Option String → Type 0
IsKnown is_default o = is_in (known_or o is_default) ui_statuses ≡ true

by_policy_known : (is_default : Bool) → is_in (by_policy is_default) ui_statuses ≡ true
by_policy_known true = refl
by_policy_known false = refl

translate_known :
    (status : Option String) (is_default : Bool)
    → is_in (translate status is_default) ui_statuses ≡ true
unfolding translate
translate_known none d = by_policy_known d
translate_known (some s) d = if_either (IsKnown d) (str_eq s "active") _ _ refl (
    if_either (IsKnown d) (str_eq s "trial") _ _ refl (
      if_either (IsKnown d) (str_eq s "pending") _ _ refl (
        if_either (IsKnown d) (str_eq s "past_due") _ _ refl (
          if_either (IsKnown d) (str_eq s "paused") _ _ refl (
            if_either (IsKnown d) (str_eq s "canceled") _ _ refl
              (if_either (IsKnown d) (str_eq s "expired") _ _ refl (by_policy_known d)))))))

-- The policy that a user holds: the one assigned, where it exists, and else the default.
abbrev pub policy_for : Db → Option ℕ → Option Scheduling
policy_for db none = first_default db.schedulings
policy_for db (some id) = or_else (scheduling_with id db.schedulings) (first_default db.schedulings)

abbrev pub held_policy : Db → String → Option Scheduling
held_policy db pubkey = policy_for db (scheduling_id_of (nsec_of db pubkey))

abbrev pub plan_held : Db → Option UserSubscription → Option BillingPlan
plan_held db none = none
plan_held db (some r) = first_plan (λ p. p.id == r.billing_plan_id) db.plans

or_default_lem :
    (found : Option Scheduling) (s : Session)
    → or_default found s ≡ (ok (or_else found (first_default s.db.schedulings)), s)
or_default_lem none s = refl
or_default_lem (some p) s = refl

policy_with_lem : (id : Option ℕ) (s : Session) → policy_with id s ≡ (ok (policy_for s.db id), s)
policy_with_lem none s = refl
policy_with_lem (some id) s = or_default_lem (scheduling_with id s.db.schedulings) s

resolve_policy_lem :
    (pubkey : String) (s : Session) → resolve_policy pubkey s ≡ (ok (held_policy s.db pubkey), s)
unfolding resolve_policy
resolve_policy_lem pubkey s = policy_with_lem (scheduling_id_of (nsec_of s.db pubkey)) s

plan_of_lem :
    (row : Option UserSubscription) (s : Session) → plan_of row s ≡ (ok (plan_held s.db row), s)
plan_of_lem none s = refl
plan_of_lem (some r) s = refl

-- The session in which the user has no record of a subscription.
abbrev pub without_record : String → Session → Session
without_record pubkey s = record s {
  db = record s.db {
    subscriptions =
        select (λ (r : UserSubscription). not (str_eq r.pubkey pubkey)) s.db.subscriptions;
  };
}

find_hidden :
    (pubkey : String) (rs : List UserSubscription)
    → find subscription_key pubkey
        (select (λ (r : UserSubscription). not (str_eq r.pubkey pubkey)) rs)
      ≡ none
unfolding find select
find_hidden pubkey [] = refl
find_hidden pubkey (r ∷ rs) = elim (Bool-cases (str_eq r.pubkey pubkey)) [
  | inl e ↦ rw e (find_hidden pubkey rs)
  | inr e ↦ rw e (rw e (find_hidden pubkey rs))
]

module _ (after : ℕ) (now : Datetime) (pubkey : String) where
  -- The record of a subscription that counts.
  abbrev pub live_record : Db → Option UserSubscription
  live_record db = unless_abandoned (abandon_rule after) now (subscription_of db pubkey)

  read_subscription_view_lem :
      (s : Session)
      → read_subscription_view after now pubkey s ≡ (
        ok (
            view_of
              (held_policy s.db pubkey)
              (live_record s.db)
              (plan_held s.db (live_record s.db))),
        s,
      )
  unfolding read_subscription_view
  read_subscription_view_lem s =
      rw (resolve_policy_lem pubkey s) (rw (plan_of_lem (live_record s.db) s) refl)

  -- A user whose checkout Flash has discarded is shown what they would be shown with no record of a
  -- subscription at all.
  pub read_subscription_view-abandoned :
      (s : Session) (row : UserSubscription)
      → subscription_of s.db pubkey ≡ some row
      → matches (abandon_rule after) now row ≡ true
      → (read_subscription_view after now pubkey s).0
        ≡ (read_subscription_view after now pubkey (without_record pubkey s)).0
  read_subscription_view-abandoned s row stored gone = rw (read_subscription_view_lem s) (
      rw (read_subscription_view_lem (without_record pubkey s))
        (rw stored (rw gone (rw (find_hidden pubkey s.db.subscriptions) refl))))

  -- A plan that is shown is the one of a record that is not abandoned, at the price of the record.
  abbrev pub ShowsPlan : Db → Option SubscriptionPlanView → Type 0
  ShowsPlan db shown =
      (shown ≡ none)
      ⊎ ((row : UserSubscription) × (plan : BillingPlan) × (live_record db ≡ some row)
          × (first_plan (λ p. p.id == row.billing_plan_id) db.plans ≡ some plan)
          × (shown ≡ some (subscriber_plan_view row plan)))

  plan_view-ShowsPlan :
      (db : Db) (row : Option UserSubscription) (plan : Option BillingPlan)
      → live_record db ≡ row
      → plan_held db row ≡ plan
      → ShowsPlan db (plan_view row plan)
  plan_view-ShowsPlan db none none e f = inl refl
  plan_view-ShowsPlan db none (some p) e f = inl refl
  plan_view-ShowsPlan db (some r) none e f = inl refl
  plan_view-ShowsPlan db (some r) (some p) e f = inr (r, p, e, f, refl)

  -- The view always is given and changes nothing. It shows the policy that the user holds, a status that
  -- the UI knows, and a plan only where a record that is not abandoned names one, at that record's price.
  pub read_subscription_view-shows :
      (s : Session)
      → (v : SubscriptionView) × (read_subscription_view after now pubkey s ≡ (ok v, s))
        × (v.policy ≡ policy_view (held_policy s.db pubkey))
        × (is_in v.status ui_statuses ≡ true)
        × ShowsPlan s.db v.plan
  read_subscription_view-shows s = (
    _,
    read_subscription_view_lem s,
    refl,
    translate_known _ _,
    plan_view-ShowsPlan s.db (live_record s.db) (plan_held s.db (live_record s.db)) refl refl,
  )
