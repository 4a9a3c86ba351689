-- ===== src/Flash/Catalog/Reads/Offers.antt =====
-- What `read_plans_for_services` of app/core/flash_plan_cache.py has of each service, told by that
-- service's own read.
use brainstorm_server.Common.{
  String, ◌≡◌, refl, sym, ◌∙◌, subst, ap, ◌⊎◌, inl, inr, Bool, true, false, Option, none, some,
  List, [], ◌∷◌, arith, Bool-cases, Option-cases, or_else, In, is_in, str_eq, str_eq_refl, eq_iff,
  if◌then◌else◌,
}
use brainstorm_server.Flash.Catalog.{FlashPlan}
use brainstorm_server.Flash.Catalog.Reads.{
  PlansRead, plans_found, plans_unavailable, service_missing, credentials_refused, Found, put_plans,
  put_read, plan_at, read_services_from,
}

-- The last plan of the list that has the id.
abbrev pub last_named : String → List FlashPlan → Option FlashPlan
last_named plan_id [] = none
last_named plan_id (p ∷ ps) =
    or_else (last_named plan_id ps) (if str_eq p.id plan_id then some p else none)

-- What a service offers under an id, by its own read alone: a read that fails offers nothing.
abbrev pub offered_by : PlansRead → String → Option FlashPlan
offered_by (plans_found ps) plan_id = last_named plan_id ps
offered_by plans_unavailable plan_id = none
offered_by service_missing plan_id = none
offered_by credentials_refused plan_id = none

or_else_if :
    (o rest : Option FlashPlan) (p : FlashPlan) (b : Bool)
    → or_else o (if b then some p else rest) ≡ or_else (or_else o (if b then some p else none)) rest
or_else_if none rest p true = refl
or_else_if none rest p false = refl
or_else_if (some q) rest p b = refl

or_else_itself : (o : Option FlashPlan) → or_else o o ≡ o
or_else_itself none = refl
or_else_itself (some p) = refl

or_else-none : (o : Option FlashPlan) → or_else o none ≡ o
or_else-none none = refl
or_else-none (some p) = refl

plan_at-put_plans :
    (s plan_id : String) (ps : List FlashPlan) (so_far : Found)
    → plan_at s plan_id (put_plans s ps so_far)
      ≡ or_else (last_named plan_id ps) (plan_at s plan_id so_far)
unfolding plan_at put_plans
plan_at-put_plans s plan_id [] so_far = refl
plan_at-put_plans s plan_id (p ∷ ps) so_far =
    plan_at-put_plans s plan_id ps ((s, p) ∷ so_far)
    ∙ rw (str_eq_refl s)
        (or_else_if (last_named plan_id ps) (plan_at s plan_id so_far) p (str_eq p.id plan_id))

plan_at-put_plans_ne :
    (s t plan_id : String) (ps : List FlashPlan) (so_far : Found)
    → str_eq t s ≡ false
    → plan_at s plan_id (put_plans t ps so_far) ≡ plan_at s plan_id so_far
unfolding plan_at put_plans
plan_at-put_plans_ne s t plan_id [] so_far apart = refl
plan_at-put_plans_ne s t plan_id (p ∷ ps) so_far apart =
    plan_at-put_plans_ne s t plan_id ps ((t, p) ∷ so_far) apart ∙ rw apart refl

plan_at-put_read :
    (s plan_id : String) (r : PlansRead) (so_far more : Found)
    → put_read s r so_far ≡ some more
    → plan_at s plan_id more ≡ or_else (offered_by r plan_id) (plan_at s plan_id so_far)
plan_at-put_read s plan_id (plans_found ps) so_far more h =
    let same : put_plans s ps so_far ≡ more = cc h in
    subst (λ f. plan_at s plan_id f ≡ or_else (last_named plan_id ps) (plan_at s plan_id so_far))
      same (plan_at-put_plans s plan_id ps so_far)
plan_at-put_read s plan_id plans_unavailable so_far more h =
    let same : so_far ≡ more = cc h in ap (plan_at s plan_id) (sym same)
plan_at-put_read s plan_id service_missing so_far more h =
    let same : so_far ≡ more = cc h in ap (plan_at s plan_id) (sym same)
plan_at-put_read s plan_id credentials_refused so_far more h = absurd (ground (arith, h))

plan_at-put_read_ne :
    (s t plan_id : String) (r : PlansRead) (so_far more : Found)
    → str_eq t s ≡ false
    → put_read t r so_far ≡ some more
    → plan_at s plan_id more ≡ plan_at s plan_id so_far
plan_at-put_read_ne s t plan_id (plans_found ps) so_far more apart h =
    let same : put_plans t ps so_far ≡ more = cc h in
    subst (λ f. plan_at s plan_id f ≡ plan_at s plan_id so_far) same
      (plan_at-put_plans_ne s t plan_id ps so_far apart)
plan_at-put_read_ne s t plan_id plans_unavailable so_far more apart h =
    let same : so_far ≡ more = cc h in ap (plan_at s plan_id) (sym same)
plan_at-put_read_ne s t plan_id service_missing so_far more apart h =
    let same : so_far ≡ more = cc h in ap (plan_at s plan_id) (sym same)
plan_at-put_read_ne s t plan_id credentials_refused so_far more apart h = absurd (ground (arith, h))

put_read-refused :
    (s : String) (r : PlansRead) (so_far : Found)
    → put_read s r so_far ≡ none
    → r ≡ credentials_refused
put_read-refused s (plans_found ps) so_far h = absurd (ground (arith, h))
put_read-refused s plans_unavailable so_far h = absurd (ground (arith, h))
put_read-refused s service_missing so_far h = absurd (ground (arith, h))
put_read-refused s credentials_refused so_far h = refl

module _ (read_service_plans : String → PlansRead) where
  abbrev own_offer : String → String → Option FlashPlan
  own_offer s plan_id = offered_by (read_service_plans s) plan_id

  -- What one further read makes of the entry of a service.
  plan_at_step :
      (s t plan_id : String) (so_far more : Found)
      → put_read t (read_service_plans t) so_far ≡ some more
      → ((t ≡ s)
          × (plan_at s plan_id more ≡ or_else (own_offer s plan_id) (plan_at s plan_id so_far)))
        ⊎ ((str_eq s t ≡ false) × (plan_at s plan_id more ≡ plan_at s plan_id so_far))
  plan_at_step s t plan_id so_far more h = elim (Bool-cases (str_eq t s)) [
    | inl e ↦
        let same : t ≡ s = (eq_iff t s).0 e in
        inl (
          same,
          plan_at-put_read s plan_id (read_service_plans s) so_far more
              (subst (λ u. put_read u (read_service_plans u) so_far ≡ some more) same h),
        )
    | inr e ↦
        inr
          (str_eq-flipped e, plan_at-put_read_ne s t plan_id (read_service_plans t) so_far more e h)
  ]
    where
      str_eq-flipped : str_eq t s ≡ false → str_eq s t ≡ false
      str_eq-flipped e = elim (Bool-cases (str_eq s t)) [
        | inl y ↦ absurd (ground (arith, e, (eq_iff t s).1 (sym ((eq_iff s t).0 y))))
        | inr n ↦ n
      ]

  -- An entry that is the service's own offer stays so.
  offer_kept :
      (s plan_id : String) (ss : List String) (so_far after : Found)
      → plan_at s plan_id so_far ≡ own_offer s plan_id
      → read_services_from read_service_plans ss so_far ≡ some after
      → plan_at s plan_id after ≡ own_offer s plan_id
  unfolding read_services_from
  offer_kept s plan_id [] so_far after own h =
      let same : so_far ≡ after = cc h in ap (plan_at s plan_id) (sym same) ∙ own
  offer_kept s plan_id (t ∷ ss) so_far after own h =
      elim (Option-cases (put_read t (read_service_plans t) so_far)) [
        | inl e ↦ absurd (ground (arith, rw e at h))
        | inr (more, e) ↦ elim (plan_at_step s t plan_id so_far more e) [
          | inl (same, entry) ↦
              offer_kept s plan_id ss more after
                (entry ∙ rw own (or_else_itself (own_offer s plan_id))) (rw e at h)
          | inr (apart, entry) ↦ offer_kept s plan_id ss more after (entry ∙ own) (rw e at h)
        ]
      ]

  offer_reached :
      (s plan_id : String) (ss : List String) (so_far after : Found)
      → plan_at s plan_id so_far ≡ none
      → read_services_from read_service_plans ss so_far ≡ some after
      → plan_at s plan_id after ≡ (if is_in s ss then own_offer s plan_id else none)
  unfolding read_services_from
  offer_reached s plan_id [] so_far after empty h =
      let same : so_far ≡ after = cc h in ap (plan_at s plan_id) (sym same) ∙ empty
  offer_reached s plan_id (t ∷ ss) so_far after empty h =
      elim (Option-cases (put_read t (read_service_plans t) so_far)) [
        | inl e ↦ absurd (ground (arith, rw e at h))
        | inr (more, e) ↦ elim (plan_at_step s t plan_id so_far more e) [
          | inl (same, entry) ↦
              let named : str_eq s t ≡ true = (eq_iff s t).1 (sym same) in
              rw named (
                offer_kept s plan_id ss more after
                  (entry ∙ rw empty (or_else-none (own_offer s plan_id))) (rw e at h))
          | inr (apart, entry) ↦
              rw apart (offer_reached s plan_id ss more after (entry ∙ empty) (rw e at h))
        ]
      ]

  -- A read of some services either meets one that refuses our credentials, or gives something.
  read_cases :
      (ss : List String) (so_far : Found)
      → ((s : String) × In s ss
          × (read_service_plans s ≡ credentials_refused)
          × (read_services_from read_service_plans ss so_far ≡ none))
        ⊎ ((after : Found) × (read_services_from read_service_plans ss so_far ≡ some after))
  unfolding read_services_from
  read_cases [] so_far = inr (so_far, refl)
  read_cases (t ∷ ss) so_far = elim (Option-cases (put_read t (read_service_plans t) so_far)) [
    | inl e ↦ inl (t, inl refl, put_read-refused t (read_service_plans t) so_far e, rw e refl)
    | inr (more, e) ↦ elim (read_cases ss more) [
      | inl (s, i, refused, stop) ↦ inl (s, inr i, refused, rw e stop)
      | inr (after, k) ↦ inr (after, rw e k)
    ]
  ]

  -- The plans of each service that is named are those of its own read, and there are no others.
  abbrev pub OwnOffers : List String → Found → Type 0
  OwnOffers ss after =
      (s plan_id : String)
      → plan_at s plan_id after
        ≡ (if is_in s ss then offered_by (read_service_plans s) plan_id else none)

  pub read_services-OwnOffers :
      (ss : List String)
      → ((s : String) × In s ss
          × (read_service_plans s ≡ credentials_refused)
          × (read_services_from read_service_plans ss [] ≡ none))
        ⊎ ((after : Found) × (read_services_from read_service_plans ss [] ≡ some after)
            × OwnOffers ss after)
  unfolding plan_at
  read_services-OwnOffers ss = elim (read_cases ss []) [
    | inl h ↦ inl h
    | inr (after, h) ↦ inr (after, h, λ s plan_id. offer_reached s plan_id ss [] after refl h)
  ]
