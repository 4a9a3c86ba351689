-- ===== src/Flash/Parsing/Lookup/Meaning.antt =====
-- What a lookup of app/core/flash.py says once it returns, and what escapes it.
use brainstorm_server.Common.{
  ℕ, ◌<◌, ◌≡◌, refl, ◌∙◌, ◌⊎◌, inl, inr, String, Bool, true, false, Option, none, some, List, [],
  ◌∷◌, arith, Bool-cases,
}
use brainstorm_server.Flash.{FlashSubscription}
use brainstorm_server.Flash.Client.{
  Response, Attempt, responded, Body, found, absent, credential_error, declined, unavailable,
  read_body,
}
use brainstorm_server.Flash.Client.Answers.{Answered, read_body-Answered}
use brainstorm_server.Flash.Parsing.{
  Json, null, boolean, whole, real, text, array, object, Items, nil, item, Fields, Library, Read,
  read, overflow_error, type_error, get, parse_subscription,
}
use brainstorm_server.Flash.Parsing.Choice.{
  rows_of, choose_subscription, live_rows, or_rows, longest, entitling_rows, runs_until,
  longest_from,
}
use brainstorm_server.Flash.Parsing.Choice.Longest.{Decides, choose_subscription-Decides}
use brainstorm_server.Flash.Parsing.Choice.Entitling.{bind_read, read_same}
use brainstorm_server.Flash.Parsing.Lookup.{
  Outcome, returned, subscription_read, is_hashable, cancellation_mode_of, read_row,
  subscription_from, from_chosen, from_list, on_body, one_subscription, by_ref_body, is_given,
  fetch_subscription_with,
}

-- Some request was answered with the object, and no error status.
abbrev pub AnsweredWith : (ℕ → Attempt Fields) → Fields → Type 0
AnsweredWith request body =
    (m : ℕ) × (r : Response Fields) × (request m ≡ responded r)
    × (r.status_code < 400)
    × (r.json ≡ some body)

abbrev pub is_array : Json → Bool
is_array (array vs) = true
is_array _ = false

-- Some request was answered with 404.
abbrev pub AnsweredAbsent : (ℕ → Attempt Fields) → Type 0
AnsweredAbsent request =
    (m : ℕ) × (r : Response Fields) × (request m ≡ responded r) × (r.status_code ≡ 404)

module _ (request : ℕ → Attempt Fields) (absent_on_404 : Bool) where
  found_lem :
      (body : Fields) → (read_body request absent_on_404).0 ≡ found body → AnsweredWith request body
  unfolding Answered
  found_lem body e =
      let (m, r, made, asked, status_lem) = read_body-Answered request absent_on_404 (rw e refl) in
      elim status_lem [
        | inl (missing, status, allowed) ↦ absurd (cc (missing, e))
        | inr (json, same, fine, has) ↦ (m, r, asked, fine, has ∙ cc (same, e))
      ]

  absent_lem :
      (read_body request absent_on_404).0 ≡ absent → AnsweredAbsent request × (absent_on_404 ≡ true)
  unfolding Answered
  absent_lem e =
      let (m, r, made, asked, status_lem) = read_body-Answered request absent_on_404 (rw e refl) in
      elim status_lem [
        | inl (missing, status, allowed) ↦ ((m, r, asked, status), allowed)
        | inr (json, same, fine, has) ↦ absurd (cc (same, e))
      ]

-- What returns from a body: absence, or what is made of an object.
on_body_lem :
    (continue : Fields → Outcome) (b : Body Fields) (o : Option FlashSubscription)
    → on_body continue b ≡ returned o
    → ((b ≡ absent) × (o ≡ none))
      ⊎ ((body : Fields) × (b ≡ found body) × (continue body ≡ returned o))
on_body_lem continue (found body) o h = inr (body, refl, h)
on_body_lem continue absent o h = inl (refl, cc h)
on_body_lem continue credential_error o h = absurd (ground (arith, h))
on_body_lem continue (declined n) o h = absurd (ground (arith, h))
on_body_lem continue unavailable o h = absurd (ground (arith, h))

module _ (lib : Library) where
  subscription_read_lem :
      (r : Read FlashSubscription) (o : Option FlashSubscription)
      → subscription_read r ≡ returned o
      → (s : FlashSubscription) × (o ≡ some s) × (r ≡ read s)
  subscription_read_lem (read s) o h = (s, cc h, refl)
  subscription_read_lem overflow_error o h = absurd (ground (arith, h))
  subscription_read_lem type_error o h = absurd (ground (arith, h))

  read_row_lem :
      (raw : Fields) (o : Option FlashSubscription)
      → read_row lib raw ≡ returned o
      → (s : FlashSubscription) × (o ≡ some s) × (parse_subscription lib raw ≡ read s)
  read_row_lem raw o h = elim (Bool-cases (is_hashable (cancellation_mode_of lib raw))) [
    | inl e ↦ subscription_read_lem _ o (rw e at h)
    | inr e ↦ absurd (ground (arith, rw e at h))
  ]

  -- What one row of a body gives: null is absence, and an object its subscription.
  abbrev pub FromRow : Json → Option FlashSubscription → Type 0
  FromRow v o =
      ((o ≡ none) × (v ≡ null))
      ⊎ ((raw : Fields) × (s : FlashSubscription) × (o ≡ some s)
          × (v ≡ object raw)
          × (parse_subscription lib raw ≡ read s))

  subscription_from-FromRow :
      (v : Json) (o : Option FlashSubscription) → subscription_from lib v ≡ returned o → FromRow v o
  subscription_from-FromRow null o h = inl (cc h, refl)
  subscription_from-FromRow (object raw) o h =
      let (s, same, parsed) = read_row_lem raw o h in inr (raw, s, same, refl, parsed)
  subscription_from-FromRow (boolean b) o h = absurd (ground (arith, h))
  subscription_from-FromRow (whole n) o h = absurd (ground (arith, h))
  subscription_from-FromRow (real t b) o h = absurd (ground (arith, h))
  subscription_from-FromRow (text t) o h = absurd (ground (arith, h))
  subscription_from-FromRow (array vs) o h = absurd (ground (arith, h))

  -- What the rows under one reference give: absence where there is no list, or none of them is a dict,
  -- and else the subscription of the row that decides.
  abbrev pub FromRows : Json → Option FlashSubscription → Type 0
  FromRows v o =
      ((o ≡ none) × (((vs : Items) × (v ≡ array vs) × (rows_of vs ≡ [])) ⊎ (is_array v ≡ false)))
      ⊎ ((vs : Items) × (row : Fields) × (s : FlashSubscription) × (o ≡ some s)
          × (v ≡ array vs)
          × Decides lib (rows_of vs) row
          × (parse_subscription lib row ≡ read s))

  longest-none : (rows : List Fields) → longest lib rows ≡ read none → rows ≡ []
  unfolding longest
  longest-none [] h = refl
  longest-none (r ∷ rs) h =
      let (t, e, after) = bind_read (runs_until lib r) _ none h in
      let (best, chosen, same) = bind_read (longest_from lib r t rs) _ none after in
      absurd (ground (arith, same))

  or_rows-nil : (es rows : List Fields) → or_rows es rows ≡ [] → rows ≡ []
  or_rows-nil [] rows h = h
  or_rows-nil (e ∷ es) rows h = absurd (ground (arith, h))

  choose-none : (vs : Items) → choose_subscription lib vs ≡ read none → rows_of vs ≡ []
  unfolding choose_subscription live_rows
  choose-none vs h =
      let (live, picked, after) = bind_read (live_rows (rows_of vs)) _ none h in
      let (es, entitling, made) = bind_read (entitling_rows (rows_of vs)) _ live picked in
      or_rows-nil es (rows_of vs) (read_same _ live made ∙ longest-none live after)

  from_chosen_lem :
      (vs : Items) (c : Read (Option Fields)) (o : Option FlashSubscription)
      → choose_subscription lib vs ≡ c
      → from_chosen lib c ≡ returned o
      → FromRows (array vs) o
  from_chosen_lem vs (read none) o e h = inl (cc h, inl (vs, refl, choose-none vs e))
  from_chosen_lem vs (read (some row)) o e h =
      let (s, same, parsed) = read_row_lem row o h in
      inr (vs, row, s, same, refl, choose_subscription-Decides lib vs row e, parsed)
  from_chosen_lem vs overflow_error o e h = absurd (ground (arith, h))
  from_chosen_lem vs type_error o e h = absurd (ground (arith, h))

  from_list-FromRows :
      (v : Json) (o : Option FlashSubscription) → from_list lib v ≡ returned o → FromRows v o
  unfolding rows_of
  from_list-FromRows (array nil) o h = inl (cc h, inl (nil, refl, refl))
  from_list-FromRows (array (item v vs)) o h = from_chosen_lem (item v vs) _ o refl h
  from_list-FromRows null o h = inl (cc h, inr refl)
  from_list-FromRows (boolean b) o h = inl (cc h, inr refl)
  from_list-FromRows (whole n) o h = inl (cc h, inr refl)
  from_list-FromRows (real t b) o h = inl (cc h, inr refl)
  from_list-FromRows (text t) o h = inl (cc h, inr refl)
  from_list-FromRows (object fs) o h = inl (cc h, inr refl)

  module _ (request_id request_ref : Option String → ℕ → Attempt Fields) where
    -- A lookup by an id that returns: Flash answered 404 and it returns `None`, or it answered with an
    -- object and no error status, and it returns what the object has as the subscription.
    pub fetch_subscription-by_id :
        (subscription_id ref : Option String) (o : Option FlashSubscription)
        → is_given subscription_id ≡ true
        → fetch_subscription_with lib request_id request_ref subscription_id ref ≡ returned o
        → (AnsweredAbsent (request_id subscription_id) × (o ≡ none))
          ⊎ ((body : Fields) × AnsweredWith (request_id subscription_id) body
              × FromRow (get "subscription" body) o)
    unfolding fetch_subscription_with
    fetch_subscription-by_id subscription_id ref o given h =
        let request = request_id subscription_id in
        elim (on_body_lem (one_subscription lib) (read_body request true).0 o (rw given at h)) [
          | inl (missing, same) ↦ inl ((absent_lem request true missing).0, same)
          | inr (body, has, made) ↦ inr (
            body,
            found_lem request true body has,
            subscription_from-FromRow (get "subscription" body) o made,
          )
        ]

    -- A lookup by a reference that returns: Flash answered with an object and no error status; it returns
    -- `None` where the object has no list of subscriptions, or none of them is a dict, and else the
    -- subscription of the row that decides.
    pub fetch_subscription-by_ref :
        (subscription_id ref : Option String) (o : Option FlashSubscription)
        → is_given subscription_id ≡ false
        → fetch_subscription_with lib request_id request_ref subscription_id ref ≡ returned o
        → (body : Fields) × AnsweredWith (request_ref ref) body
          × FromRows (get "subscriptions" body) o
    unfolding fetch_subscription_with
    fetch_subscription-by_ref subscription_id ref o no_id h =
        let request = request_ref ref in
        elim (Bool-cases (is_given ref)) [
          | inl given ↦
              elim (on_body_lem (by_ref_body lib) (read_body request false).0 o
                (rw (no_id, given) at h)) [
                  | inl (missing, same) ↦
                      absurd (ground (arith, (absent_lem request false missing).1))
                  | inr (body, has, made) ↦ (
                    body,
                    found_lem request false body has,
                    from_list-FromRows (get "subscriptions" body) o made,
                  )
                ]
          | inr no_ref ↦ absurd (ground (arith, rw (no_id, no_ref) at h))
        ]
