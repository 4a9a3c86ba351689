-- ===== src/SelfMap/Listing/Claims.antt =====
-- What the self-entries of `build_should_say` in app/services/self_map_build.py claim.
use Prim.Native.Nat.{Ordering}
use brainstorm_server.Common.{
  ◌≡◌, ◌≢◌, refl, sym, ap, subst, ◌∙◌, ◌⊎◌, inl, inr, Bool, true, false, Option, none, some, List,
  [], ◌∷◌, ◌++◌, map, arith, Bool-cases, All, In, In-append, All-In,
}
use brainstorm_server.Common.Text.{Text, text_eq_refl}
use brainstorm_server.SelfMap.Keys.{Key, Probe, matches, compare_keys, parse_key}
use brainstorm_server.SelfMap.Keys.Order.{compare_keys-flip}
use brainstorm_server.SelfMap.Keys.Winner.{IsWinner, winner_of-IsWinner}
use brainstorm_server.SelfMap.Keys.Distinct.{parse_key-distinct}
use brainstorm_server.SelfMap.Duties.{Duty}
use brainstorm_server.SelfMap.Listing.{
  Entry, Lives, has, is_live_at, live_of, marked, mark_key, is_marked, would_win, weigh, Weigh,
  wrong, passed, spoken, valid_from,
}

-- The key is one that some text is parsed as.
abbrev pub IsParsed : Key → Type 0
IsParsed k = (t : Text) × (parse_key t ≡ some k)

-- Another entry has the probe, which is not less specific.
abbrev Yields : Key → Probe → List Entry → Type 0
Yields c p chosen =
    (e : Entry) × In e chosen × (matches e.0 p ≡ true) × (compare_keys c e.0 ≢ Ordering.lt)

abbrev IsWon : Key → List Entry → Probe → Option (Key × Bool) → Type 0
IsWon c chosen p = IsWinner mark_key p (map marked chosen ++ (c, true) ∷ [])

In-marked :
    (c : Key) (m : Key × Bool) (chosen : List Entry)
    → In m (map marked chosen ++ (c, true) ∷ [])
    → m.1 ≡ false
    → (e : Entry) × In e chosen × (m ≡ marked e)
In-marked c m [] (inl same) h = let t : m.1 ≡ true = ap (λ z. z.1) same in cc
In-marked c m [] (inr later) h = elim later [ ]
In-marked c m (e ∷ es) (inl same) h = (e, inl refl, same)
In-marked c m (e ∷ es) (inr later) h =
    let (f, i, same) = In-marked c m es later h in (f, inr i, same)

-- What holds of the last item.
All-last {ℓ κ} : {A : Type ℓ} (P : A → Type κ) (xs : List A) (x : A) → All P (xs ++ x ∷ []) → P x
All-last P [] x h = h.0
All-last P (y ∷ ys) x h = All-last P ys x h.1

not_won :
    (c : Key) (chosen : List Entry) (p : Probe) (r : Option (Key × Bool))
    → matches c p ≡ true
    → IsWon c chosen p r
    → is_marked r ≡ false
    → Yields c p chosen
not_won c chosen p none m w h = cc (All-last _ (map marked chosen) (c, true) w)
not_won c chosen p (some w) m (i, n, unbeaten) h =
    let (e, in_chosen, same) = In-marked c w chosen i h in
    let key : w.0 ≡ e.0 = ap (λ z. z.0) same in
    (
      e,
      in_chosen,
      subst (λ k. matches k p ≡ true) key n,
      elim (All-last _ (map marked chosen) (c, true) unbeaten) [
        | inl none_here ↦ cc
        | inr unbeaten_here ↦ subst (λ k. compare_keys c k ≢ Ordering.lt) key unbeaten_here
      ],
    )

Ordering-cases : (o : Ordering) → (o ≡ Ordering.lt) ⊎ (o ≡ Ordering.eq) ⊎ (o ≡ Ordering.gt)
Ordering-cases Ordering.lt = inl refl
Ordering-cases Ordering.eq = inr (inl refl)
Ordering-cases Ordering.gt = inr (inr refl)

Weigh-cases : (w : Weigh) → (w ≡ passed) ⊎ (w ≡ wrong) ⊎ (w ≡ spoken)
Weigh-cases passed = inl refl
Weigh-cases wrong = inr (inl refl)
Weigh-cases spoken = inr (inr refl)

module _ (live : Lives) where
  -- A duty that an entry matches is live at its relay, or a more specific entry has it.
  abbrev pub Fits : Key → Text → List Entry → Duty → Type 0
  Fits c relay chosen d =
      (d.duty ≡ false)
      ⊎ (matches c d.probe ≡ false)
      ⊎ (is_live_at relay (live_of live d.probe) ≡ true)
      ⊎ ((e : Entry) × In e chosen
          × (matches e.0 d.probe ≡ true)
          × (compare_keys e.0 c ≡ Ordering.lt))

  abbrev pub Weighed : Key → Text → List Entry → Duty → Type 0
  Weighed c relay chosen d =
      (d.duty ≡ false)
      ⊎ (matches c d.probe ≡ false)
      ⊎ (is_live_at relay (live_of live d.probe) ≡ true)
      ⊎ ((matches c d.probe ≡ true) × (would_win c chosen d.probe ≡ false))

  weigh-Weighed :
      (c : Key) (relay : Text) (chosen : List Entry) (d : Duty)
      → weigh live c relay chosen d ≢ wrong
      → Weighed c relay chosen d
  unfolding weigh
  weigh-Weighed c relay chosen d h = elim (Bool-cases d.duty) [
    | inr a ↦ inl a
    | inl a ↦ elim (Bool-cases (matches c d.probe)) [
      | inr b ↦ inr (inl b)
      | inl b ↦ elim (Bool-cases (would_win c chosen d.probe)) [
        | inr w ↦ inr (inr (inr (b, w)))
        | inl w ↦ elim (Bool-cases (is_live_at relay (live_of live d.probe))) [
          | inl l ↦ inr (inr (inl l))
          | inr l ↦ absurd (h (rw a (rw b (rw w (rw l refl)))))
        ]
      ]
    ]
  ]

  pub valid_from-Weighed :
      (c : Key) (relay : Text) (chosen : List Entry) (speaks : Bool) (ds : List Duty)
      → valid_from live c relay chosen speaks ds ≡ true
      → All (Weighed c relay chosen) ds
  unfolding valid_from
  valid_from-Weighed c relay chosen speaks [] h = tt
  valid_from-Weighed c relay chosen speaks (d ∷ ds) h =
      elim (Weigh-cases (weigh live c relay chosen d)) [
        | inl e ↦ (
          weigh-Weighed c relay chosen d (λ k. cc),
          valid_from-Weighed c relay chosen speaks ds (rw (e, valid_from) at h),
        )
        | inr (inl e) ↦ cc (rw (e, valid_from) at h)
        | inr (inr e) ↦ (
          weigh-Weighed c relay chosen d (λ k. cc),
          valid_from-Weighed c relay chosen true ds (rw (e, valid_from) at h),
        )
      ]

  has-In :
      (c : Key) (chosen : List Entry) (e : Entry) → In e chosen → e.0 ≡ c → has c.norm chosen ≡ true
  has-In c [] e i same = elim i [ ]
  has-In c (x ∷ xs) e (inl here) same =
      let norm : x.0.norm ≡ c.norm = ap (λ z. z.0.norm) (sym here) ∙ ap (λ k. k.norm) same in
      rw norm (rw (text_eq_refl c.norm) refl)
  has-In c (x ∷ xs) e (inr later) same = ground (arith, has-In c xs e later same)

  -- An entry that is not less specific than a new key is more specific.
  stricter :
      (c : Key) (chosen : List Entry) (p : Probe)
      → IsParsed c
      → All (λ e. IsParsed e.0) chosen
      → has c.norm chosen ≡ false
      → Yields c p chosen
      → (e : Entry) × In e chosen × (matches e.0 p ≡ true) × (compare_keys e.0 c ≡ Ordering.lt)
  stricter c chosen p (t, parsed) all_parsed new (e, i, m, h) =
      let (u, known) = All-In (λ x. IsParsed x.0) e chosen all_parsed i in
      (
        e,
        i,
        m,
        elim (Ordering-cases (compare_keys c e.0)) [
          | inl l ↦ absurd (h l)
          | inr (inl q) ↦
              let same : c ≡ e.0 = parse_key-distinct t u c e.0 parsed known q in
              cc (has-In c chosen e i (sym same))
          | inr (inr g) ↦ rw g at (compare_keys-flip c e.0)
        ],
      )

  pub Weighed-Fits :
      (c : Key) (relay : Text) (chosen : List Entry)
      → IsParsed c
      → All (λ e. IsParsed e.0) chosen
      → has c.norm chosen ≡ false
      → (d : Duty) → Weighed c relay chosen d
      → Fits c relay (chosen ++ (c, relay) ∷ []) d
  unfolding would_win
  Weighed-Fits c relay chosen parsed all_parsed new d (inl a) = inl a
  Weighed-Fits c relay chosen parsed all_parsed new d (inr (inl b)) = inr (inl b)
  Weighed-Fits c relay chosen parsed all_parsed new d (inr (inr (inl l))) = inr (inr (inl l))
  Weighed-Fits c relay chosen parsed all_parsed new d (inr (inr (inr (m, lost)))) =
      let (e, i, n, s) =
        stricter c chosen d.probe parsed all_parsed new
          (not_won c chosen d.probe _ m (winner_of-IsWinner mark_key d.probe _) lost) in
      inr (inr (inr (e, In-append e chosen _ i, n, s)))

  pub Fits-more :
      (c : Key) (relay : Text) (chosen more : List Entry) (d : Duty)
      → Fits c relay chosen d
      → Fits c relay (chosen ++ more) d
  Fits-more c relay chosen more d (inl a) = inl a
  Fits-more c relay chosen more d (inr (inl b)) = inr (inl b)
  Fits-more c relay chosen more d (inr (inr (inl l))) = inr (inr (inl l))
  Fits-more c relay chosen more d (inr (inr (inr (e, i, m, s)))) =
      inr (inr (inr (e, In-append e chosen more i, m, s)))
