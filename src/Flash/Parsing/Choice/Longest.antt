-- ===== src/Flash/Parsing/Choice/Longest.antt =====
-- Which row `_choose_subscription` of app/core/flash.py takes.
use brainstorm_server.Common.{
  ◌≤◌, ◌≡◌, refl, sym, subst, ◌⊎◌, inl, inr, Bool, true, false, some, List, [], ◌∷◌, arith,
  Bool-cases, All, All-weaken, All-In, In, ltb, if◌then◌else◌,
}
use brainstorm_server.Flash.{Datetime}
use brainstorm_server.Flash.Parsing.{Items, Fields, Library, read}
use brainstorm_server.Flash.Parsing.Choice.{
  rows_of, is_entitling, entitling_rows, or_rows, live_rows, runs_until, longest_from, longest,
  choose_subscription,
}
use brainstorm_server.Flash.Parsing.Choice.Entitling.{
  bind_read, read_same, Entitles, Sorted, entitling_rows_lem,
}

module _ (lib : Library) where
  -- The row runs no longer than to `t`.
  abbrev pub RunsBy : Datetime → Fields → Type 0
  RunsBy t r = (u : Datetime) × (runs_until lib r ≡ read u) × (u ≤ t)

  later_bound : (t u : Datetime) (r : Fields) → t ≤ u → RunsBy t r → RunsBy u r
  later_bound t u r le (v, e, h) = (v, e, omega arith)

  IsLongest : Fields → List Fields → Type 0
  IsLongest row rows =
      In row rows × ((t : Datetime) × (runs_until lib row ≡ read t) × All (RunsBy t) rows)

  -- The best so far, and the rows that are left.
  Best : Fields → Datetime → List Fields → Fields → Type 0
  Best best t rs row =
      ((row ≡ best) ⊎ In row rs)
      × ((u : Datetime) × (runs_until lib row ≡ read u) × (t ≤ u) × All (RunsBy u) rs)

  Best-step :
      (best r row : Fields) (t u : Datetime) (rs : List Fields)
      → runs_until lib r ≡ read u
      → Best (if ltb t u then r else best) (if ltb t u then u else t) rs row
      → Best best t (r ∷ rs) row
  unfolding Best
  Best-step best r row t u rs e h = elim (Bool-cases (ltb t u)) [
    | inl w ↦
        let (place, (v, ends, le, all)) = rw w at h in
        (inr place, (v, ends, ground arith, ((u, e, le), all)))
    | inr w ↦
        let (place, (v, ends, le, all)) = rw w at h in
        (
          elim place [ inl same ↦ inl same | inr i ↦ inr (inr i) ],
          (v, ends, le, ((u, e, ground arith), all)),
        )
  ]

  longest_from-Best :
      (rs : List Fields) (best row : Fields) (t : Datetime)
      → runs_until lib best ≡ read t
      → longest_from lib best t rs ≡ read row
      → Best best t rs row
  unfolding longest_from Best
  longest_from-Best [] best row t e h =
      let same = read_same best row h in
      (inl (sym same), (t, subst (λ r. runs_until lib r ≡ read t) same e, omega arith, tt))
  longest_from-Best (r ∷ rs) best row t e h =
      let (u, ends, after) = bind_read (runs_until lib r) _ row h in
      Best-step best r row t u rs ends (elim (Bool-cases (ltb t u)) [
        | inl w ↦ rw w (longest_from-Best rs r row u ends (rw w at after))
        | inr w ↦ rw w (longest_from-Best rs best row t e (rw w at after))
      ])

  longest-IsLongest :
      (rows : List Fields) (row : Fields) → longest lib rows ≡ read (some row) → IsLongest row rows
  unfolding longest IsLongest Best
  longest-IsLongest [] row h = absurd (ground (arith, h))
  longest-IsLongest (r ∷ rs) row h =
      let (t, e, after) = bind_read (runs_until lib r) _ (some row) h in
      let (best, chosen, same) = bind_read (longest_from lib r t rs) _ (some row) after in
      let found : best ≡ row = cc same in
      let (place, (u, ends, le, all)) =
        longest_from-Best rs r row t e
          (subst (λ b. longest_from lib r t rs ≡ read b) found chosen) in
      (elim place [ inl w ↦ inl w | inr i ↦ inr i ], (u, ends, ((t, e, le), all)))

  -- The row entitles as the one that decides does, and runs no longer, or it alone does not entitle.
  abbrev pub NoBetter : Bool → Datetime → Fields → Type 0
  NoBetter entitles t r =
      (b : Bool) × (is_entitling r ≡ read b)
      × (((b ≡ entitles) × RunsBy t r) ⊎ ((b ≡ false) × (entitles ≡ true)))

  -- The row that decides is one of the rows, and none is better.
  abbrev pub Decides : List Fields → Fields → Type 0
  Decides rows row =
      (entitles : Bool) × (t : Datetime) × (is_entitling row ≡ read entitles)
      × (runs_until lib row ≡ read t)
      × In row rows
      × All (NoBetter entitles t) rows

  -- Some row entitles.
  some_row-Decides :
      (rows es : List Fields) (row : Fields)
      → All (Entitles rows) es
      → All (Sorted es) rows
      → IsLongest row es
      → Decides rows row
  unfolding IsLongest Entitles Sorted
  some_row-Decides rows es row sound complete (i, (t, ends, all)) =
      let (here, entitling) = All-In (Entitles rows) row es sound i in
      (
        true,
        t,
        entitling,
        ends,
        here,
        All-weaken (Sorted es) (NoBetter true t) (no_better es t all) rows complete,
      )
    where
      by_live :
          (es : List Fields) (t : Datetime) (r : Fields) (b : Bool)
          → All (RunsBy t) es
          → is_entitling r ≡ read b
          → ((b ≡ true) → In r es)
          → NoBetter true t r
      by_live es t r true all e in_live =
          (true, e, inl (refl, All-In (RunsBy t) r es all (in_live refl)))
      by_live es t r false all e in_live = (false, e, inr (refl, refl))

      no_better :
          (es : List Fields) (t : Datetime)
          → All (RunsBy t) es
          → (r : Fields) → Sorted es r
          → NoBetter true t r
      no_better es t all r (b, e, in_live) = by_live es t r b all e in_live

  nowhere_lem : (b : Bool) (r : Fields) → ((b ≡ true) → In r []) → b ≡ false
  nowhere_lem true r h = elim (h refl) [ ]
  nowhere_lem false r h = refl

  -- No row entitles.
  no_row-Decides :
      (rows : List Fields) (row : Fields)
      → All (Sorted []) rows
      → IsLongest row rows
      → Decides rows row
  unfolding IsLongest Sorted
  no_row-Decides rows row none_live (i, (t, ends, all)) =
      let (b, e, nowhere) = All-In (Sorted []) row rows none_live i in
      let no = nowhere_lem b row nowhere in
      (
        false,
        t,
        subst (λ c. is_entitling row ≡ read c) no e,
        ends,
        i,
        none_and_all rows none_live all,
      )
    where
      none_and_all :
          (rs : List Fields) → All (Sorted []) rs → All (RunsBy t) rs → All (NoBetter false t) rs
      none_and_all [] h k = tt
      none_and_all (r ∷ rs) ((b, e, nowhere), h) (by, k) =
          ((b, e, inl (nowhere_lem b r nowhere, by)), none_and_all rs h k)

  -- The row that is chosen among those under one reference is one of them, entitles where any of them
  -- does, and none that entitles as it does runs longer.
  pub choose_subscription-Decides :
      (subscriptions : Items) (row : Fields)
      → choose_subscription lib subscriptions ≡ read (some row)
      → Decides (rows_of subscriptions) row
  unfolding choose_subscription live_rows
  choose_subscription-Decides subscriptions row h =
      let rows = rows_of subscriptions in
      let (live, picked, after) = bind_read (live_rows rows) _ (some row) h in
      let (es, entitling, made) = bind_read (entitling_rows rows) _ live picked in
      let (sound, complete) = entitling_rows_lem rows es entitling in
      decided es sound complete
        (subst (λ l. longest lib l ≡ read (some row)) (sym (read_same _ live made)) after)
    where
      decided :
          (es : List Fields)
          → All (Entitles (rows_of subscriptions)) es
          → All (Sorted es) (rows_of subscriptions)
          → longest lib (or_rows es (rows_of subscriptions)) ≡ read (some row)
          → Decides (rows_of subscriptions) row
      decided [] sound complete e =
          no_row-Decides (rows_of subscriptions) row complete (longest-IsLongest _ row e)
      decided (x ∷ es) sound complete e =
          some_row-Decides (rows_of subscriptions) (x ∷ es) row sound complete
            (longest-IsLongest (x ∷ es) row e)
