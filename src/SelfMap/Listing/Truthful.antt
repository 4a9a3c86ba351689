-- ===== src/SelfMap/Listing/Truthful.antt =====
-- The self-entries of `build_should_say` in app/services/self_map_build.py claim only what is live.
use brainstorm_server.Common.{
  ℕ, ◌≡◌, refl, subst, inl, inr, Bool, true, false, Option, none, some, List, [], ◌∷◌, ◌++◌,
  Bool-cases, Option-cases, All, All-append, All-weaken, In, All-In, if◌then◌else◌,
}
use brainstorm_server.Common.Sorting.{sort_by, All-sort_by, In-sort_by}
use brainstorm_server.Common.Text.{Text, codes, text_eq}
use brainstorm_server.SelfMap.Keys.{Key, metric, score_kind, meet_of, parse_key, winner_of}
use brainstorm_server.SelfMap.Keys.Winner.{IsWinner, winner_of-IsWinner}
use brainstorm_server.SelfMap.Probes.{published_score_metrics, probe}
use brainstorm_server.SelfMap.Duties.{Group, Duty, names}
use brainstorm_server.SelfMap.Offer.{OfferRow, covering, offers_kind}
use brainstorm_server.SelfMap.Listing.{
  Entry, entry_key, Lives, has, is_live_at, live_of, valid_from, try_key, try_metrics, try_meet,
  try_meets, meets_from, add_meet, has_norm, list_key, list_keys, keys_naming, build_should_say,
  duty_at, won_by,
}
use brainstorm_server.SelfMap.Listing.Claims.{
  IsParsed, Fits, valid_from-Weighed, Weighed-Fits, Fits-more,
}

abbrev pub IsParsedOption : Option Key → Type 0
IsParsedOption none = Unit
IsParsedOption (some k) = IsParsed k

parse_key-IsParsed : (t : Text) → IsParsedOption (parse_key t)
parse_key-IsParsed t = elim (Option-cases (parse_key t)) [
  | inl e ↦ rw e tt
  | inr (k, e) ↦ rw e (t, e)
]

module _ (who : Text) (duties : List Duty) (live : Lives) (offer : List OfferRow) where
  -- The entry is one the offer covers, at the relay that the offer gives it.
  abbrev pub IsOffered : Entry → Type 0
  IsOffered e = (row : OfferRow) × (covering offer e.0 ≡ some row) × (row.relay ≡ e.1)

  pub record IsTruthful (chosen : List Entry) : Type 0 where
    pub keys_parsed : All (λ e. IsParsed e.0) chosen
    pub offered : All IsOffered chosen
    pub fits : All (λ e. All (Fits live e.0 e.1 chosen) duties) chosen

  empty-IsTruthful : IsTruthful []
  empty-IsTruthful = record { keys_parsed = tt; offered = tt; fits = tt }

  added :
      (c : Key) (row : OfferRow) (chosen : List Entry)
      → IsTruthful chosen
      → IsParsed c
      → has c.norm chosen ≡ false
      → covering offer c ≡ some row
      → valid_from live c row.relay chosen false duties ≡ true
      → IsTruthful (chosen ++ (c, row.relay) ∷ [])
  added c row chosen t p new cov ok = record {
    keys_parsed = All-append _ chosen _ t.keys_parsed (p, tt);
    offered = All-append _ chosen _ t.offered ((row, cov, refl), tt);
    fits =
        All-append _ chosen _
          (All-weaken _ _
            (λ e h. All-weaken _ _ (Fits-more live e.0 e.1 chosen ((c, row.relay) ∷ [])) duties h)
            chosen t.fits)
          (
            All-weaken _ _ (Weighed-Fits live c row.relay chosen p t.keys_parsed new) duties
                (valid_from-Weighed live c row.relay chosen false duties ok),
            tt,
          );
  }

  try_key-IsTruthful :
      (k : Option Key) (chosen : List Entry)
      → IsParsedOption k
      → IsTruthful chosen
      → IsTruthful (try_key who duties live offer k chosen).1
  unfolding try_key
  try_key-IsTruthful none chosen p t = t
  try_key-IsTruthful (some c) chosen p t = elim (Bool-cases (has c.norm chosen)) [
    | inl e ↦ rw e t
    | inr new ↦ rw new (elim (Option-cases (covering offer c)) [
      | inl e ↦ rw e t
      | inr (row, cov) ↦
          rw cov (elim (Bool-cases (valid_from live c row.relay chosen false duties)) [
            | inl ok ↦ rw ok (added c row chosen t p new cov ok)
            | inr e ↦ rw e t
          ])
    ])
  ]

  if-IsTruthful :
      (b : Bool) (x y : List Entry) → IsTruthful x → IsTruthful y → IsTruthful (if b then x else y)
  if-IsTruthful true x y h k = h
  if-IsTruthful false x y h k = k

  try_metrics-IsTruthful :
      (k : Key) (ms : List Text) (chosen : List Entry)
      → IsTruthful chosen
      → IsTruthful (try_metrics who duties live offer k ms chosen)
  unfolding try_metrics
  try_metrics-IsTruthful k [] chosen t = t
  try_metrics-IsTruthful k (m ∷ ms) chosen t = try_metrics-IsTruthful k ms _ (
      if-IsTruthful (won_by who duties live offer k (duty_at duties (probe score_kind (metric m))))
        _ _
        (try_key-IsTruthful (parse_key (codes "30382:" ++ m)) chosen
          (parse_key-IsParsed (codes "30382:" ++ m)) t)
        t)

  -- What trying one key leaves is truthful, whether or not the key was taken.
  abbrev Tried : Bool × List Entry → Type 0
  Tried o = IsTruthful o.1

  if-Tried : (b : Bool) (x y : Bool × List Entry) → Tried x → Tried y → Tried (if b then x else y)
  if-Tried true x y h k = h
  if-Tried false x y h k = k

  try_meet-IsTruthful :
      (k m : Key) (chosen : List Entry)
      → IsParsed m
      → IsTruthful chosen
      → IsTruthful (try_meet who duties live offer k m chosen)
  unfolding try_meet
  try_meet-IsTruthful k m chosen p t =
      let tried =
        if-Tried (text_eq m.norm k.norm) (false, chosen)
          (try_key who duties live offer (some m) chosen) t
          (try_key-IsTruthful (some m) chosen p t) in
      if-IsTruthful _ _ _ tried
        (if-IsTruthful _ _ _ (try_metrics-IsTruthful k published_score_metrics _ tried) tried)

  try_meets-IsTruthful :
      (k : Key) (ms : List Key) (chosen : List Entry)
      → All IsParsed ms
      → IsTruthful chosen
      → IsTruthful (try_meets who duties live offer k ms chosen)
  unfolding try_meets
  try_meets-IsTruthful k [] chosen p t = t
  try_meets-IsTruthful k (m ∷ ms) chosen p t =
      try_meets-IsTruthful k ms _ p.1 (try_meet-IsTruthful k m chosen p.0 t)

  add_meet-IsParsed :
      (m : Option Key) (ms : List Key)
      → IsParsedOption m
      → All IsParsed ms
      → All IsParsed (add_meet who duties live offer m ms)
  add_meet-IsParsed none ms p h = h
  add_meet-IsParsed (some m) ms p h = elim (Bool-cases (has_norm who duties live offer m.norm ms)) [
    | inl e ↦ rw e h
    | inr e ↦ rw e (All-append IsParsed ms (m ∷ []) h (p, tt))
  ]

  meets_from-IsParsed :
      (k : Key) (kinds : List ℕ) (ms : List Key)
      → All IsParsed ms
      → All IsParsed (meets_from who duties live offer k kinds ms)
  unfolding meets_from
  meets_from-IsParsed k [] ms h = h
  meets_from-IsParsed k (kind ∷ kinds) ms h = elim (Bool-cases (offers_kind kind offer)) [
    | inl e ↦ rw e (
        meets_from-IsParsed k kinds _
          (add_meet-IsParsed (meet_of k kind) ms (parse_key-IsParsed _) h))
    | inr e ↦ rw e (meets_from-IsParsed k kinds ms h)
  ]

  list_key-IsTruthful :
      (k : Key) (chosen : List Entry)
      → IsParsed k
      → IsTruthful chosen
      → IsTruthful (list_key who duties live offer k chosen)
  unfolding list_key
  list_key-IsTruthful k chosen p t =
      let tried =
        if-Tried (has k.norm chosen) (true, chosen) (try_key who duties live offer (some k) chosen)
          t (try_key-IsTruthful (some k) chosen p t) in
      if-IsTruthful _ _ _ tried (
        try_meets-IsTruthful k _ _
          (All-sort_by _ IsParsed (meets_from who duties live offer k k.kinds [])
            (meets_from-IsParsed k k.kinds [] tt))
          tried)

  list_keys-IsTruthful :
      (ks : List Key) (chosen : List Entry)
      → All IsParsed ks
      → IsTruthful chosen
      → IsTruthful (list_keys who duties live offer ks chosen)
  unfolding list_keys
  list_keys-IsTruthful [] chosen p t = t
  list_keys-IsTruthful (k ∷ ks) chosen p t =
      list_keys-IsTruthful ks _ p.1 (list_key-IsTruthful k chosen p.0 t)

  keys_naming-IsParsed :
      (gs : List Group)
      → All (λ g. IsParsed g.key) gs
      → All IsParsed (keys_naming who duties live offer gs)
  unfolding keys_naming
  keys_naming-IsParsed [] h = tt
  keys_naming-IsParsed (g ∷ gs) h = elim (Bool-cases (names who g)) [
    | inl e ↦ rw e (h.0, keys_naming-IsParsed gs h.1)
    | inr e ↦ rw e (keys_naming-IsParsed gs h.1)
  ]

  resorted :
      (precedes : Entry → Entry → Bool) (chosen : List Entry) (c : Key) (relay : Text) (d : Duty)
      → Fits live c relay chosen d
      → Fits live c relay (sort_by precedes chosen) d
  resorted precedes chosen c relay d (inl a) = inl a
  resorted precedes chosen c relay d (inr (inl b)) = inr (inl b)
  resorted precedes chosen c relay d (inr (inr (inl l))) = inr (inr (inl l))
  resorted precedes chosen c relay d (inr (inr (inr (e, i, m, s)))) =
      inr (inr (inr (e, In-sort_by precedes e chosen i, m, s)))

  sort-IsTruthful :
      (precedes : Entry → Entry → Bool) (chosen : List Entry)
      → IsTruthful chosen
      → IsTruthful (sort_by precedes chosen)
  sort-IsTruthful precedes chosen t = record {
    keys_parsed = All-sort_by precedes _ chosen t.keys_parsed;
    offered = All-sort_by precedes _ chosen t.offered;
    fits = All-sort_by precedes _ chosen (
        All-weaken _ _ (λ e h. All-weaken _ _ (resorted precedes chosen e.0 e.1) duties h) chosen
          t.fits);
  }

  pub build_should_say-IsTruthful :
      (groups : List Group)
      → All (λ g. IsParsed g.key) groups
      → IsTruthful (build_should_say who duties live offer groups)
  unfolding build_should_say
  build_should_say-IsTruthful groups p = sort-IsTruthful _ _ (
      list_keys-IsTruthful _ []
        (All-sort_by _ IsParsed (keys_naming who duties live offer groups)
          (keys_naming-IsParsed groups p))
        empty-IsTruthful)

  won_is_live :
      (chosen : List Entry) (d : Duty) (e : Entry)
      → d.duty ≡ true
      → IsWinner entry_key d.probe chosen (some e)
      → Fits live e.0 e.1 chosen d
      → is_live_at e.1 (live_of live d.probe) ≡ true
  won_is_live chosen d e duty (i, m, unbeaten) (inl a) = cc
  won_is_live chosen d e duty (i, m, unbeaten) (inr (inl b)) = cc
  won_is_live chosen d e duty (i, m, unbeaten) (inr (inr (inl l))) = l
  won_is_live chosen d e duty (i, m, unbeaten) (inr (inr (inr (f, j, n, s)))) =
      elim (All-In _ f chosen unbeaten j) [
        | inl none_here ↦ cc
        | inr not_more ↦ absurd (not_more s)
      ]

  -- The entry that has a duty, by the truthful entries, names a relay where the duty is live, and
  -- that the offer gives.
  pub IsTruthful-winner :
      (chosen : List Entry) (d : Duty) (e : Entry)
      → IsTruthful chosen
      → In d duties
      → d.duty ≡ true
      → winner_of entry_key chosen d.probe ≡ some e
      → (is_live_at e.1 (live_of live d.probe) ≡ true) × IsOffered e
  IsTruthful-winner chosen d e t i duty won =
      let w : IsWinner entry_key d.probe chosen (some e) =
        subst (IsWinner entry_key d.probe chosen) won
          (winner_of-IsWinner entry_key d.probe chosen) in
      (
        won_is_live chosen d e duty w (All-In _ d duties (All-In _ e chosen t.fits w.0) i),
        All-In _ e chosen t.offered w.0,
      )
