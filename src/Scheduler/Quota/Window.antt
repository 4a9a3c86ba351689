-- ===== src/Scheduler/Quota/Window.antt =====
-- What a refusal by app/services/manual_quota.py says.
use brainstorm_server.Common.{
  ◌+◌, ◌*◌, ◌≤◌, ◌<◌, ◌≡◌, refl, subst, ◌⊎◌, inl, inr, String, Bool, true, false, some, List, [],
  ◌∷◌, arith, ltb, length, Bool-cases, All, All-weaken, All-In, In,
}
use brainstorm_server.Table.Where.{select, All-select}
use brainstorm_server.Flash.{Datetime}
use brainstorm_server.Scheduler.Ranking.{second}
use brainstorm_server.Scheduler.Quota.{
  ManualRun, ManualQuota, in_window, oldest_of, manual_quota_decision, enforce_manual_quota, or_now,
}

-- The time is the oldest among those of the runs.
abbrev pub IsOldest : List ManualRun → Datetime → Type 0
IsOldest runs t =
    ((r : ManualRun) × In r runs × (r.created_at ≡ t))
    × All (λ (r : ManualRun). t ≤ r.created_at) runs

oldest_of-IsOldest :
    (runs : List ManualRun)
    → (runs ≡ []) ⊎ ((t : Datetime) × (oldest_of runs ≡ some t) × IsOldest runs t)
unfolding oldest_of
oldest_of-IsOldest [] = inl refl
oldest_of-IsOldest (r ∷ []) = inr (r.created_at, refl, ((r, inl refl, refl), (omega arith, tt)))
oldest_of-IsOldest (r ∷ s ∷ rs) = elim (oldest_of-IsOldest (s ∷ rs)) [
  | inl nothing ↦ absurd (ground (arith, nothing))
  | inr (t, e, ((o, i, at_o), least)) ↦ elim (Bool-cases (ltb t r.created_at)) [
    | inl w ↦ inr (t, rw (e, oldest_of) (rw w refl), ((o, inr i, at_o), (ground arith, least)))
    | inr w ↦ inr (
      r.created_at,
      rw (e, oldest_of) (rw w refl),
      (
        (r, inl refl, refl),
        (omega arith, All-weaken _ _ (λ (x : ManualRun) h. ground arith) (s ∷ rs) least),
      ),
    )
  ]
]

module _ {A : Type 0} (p q : A → Bool) (weaker : (x : A) → q x ≡ true → p x ≡ true) where
  select-fewer : (xs : List A) → length (select q xs) ≤ length (select p xs)
  unfolding select
  select-fewer [] = omega arith
  select-fewer (x ∷ xs) = ground (arith, select-fewer xs, weaker x)

  -- One item passes the one test and not the other.
  select-less :
      (x : A) (xs : List A)
      → In x (select p xs)
      → q x ≡ false
      → length (select q xs) < length (select p xs)
  unfolding select
  select-less x [] i h = elim i [ ]
  select-less x (y ∷ xs) i h = elim (Bool-cases (p y)) [
    | inr e ↦
        let fails : q y ≡ false = ground (arith, weaker y) in
        rw (e, fails) (select-less x xs (rw e at i) h)
    | inl e ↦ elim (rw e at i) [
      | inl same ↦
          let fails : q y ≡ false = subst (λ z. q z ≡ false) same h in
          rw (e, fails) (omega (arith, select-fewer xs))
      | inr later ↦ ground (arith, select-less x xs later h, weaker y)
    ]
  ]

module _ (q : ManualQuota) (pubkey : String) (runs : List ManualRun) where
  -- The runs that count at a moment.
  abbrev pub runs_at : Datetime → List ManualRun
  runs_at now = select (in_window pubkey q.manual_quota_window_seconds now) runs

  window_moves :
      (now later : Datetime) (r : ManualRun)
      → now ≤ later
      → in_window pubkey q.manual_quota_window_seconds later r ≡ true
      → in_window pubkey q.manual_quota_window_seconds now r ≡ true
  window_moves now later r le h = ground arith

  out_of_window :
      (later : Datetime) (r : ManualRun)
      → r.created_at + q.manual_quota_window_seconds * second < later
      → in_window pubkey q.manual_quota_window_seconds later r ≡ false
  out_of_window later r gone = ground arith

  in_time :
      (now : Datetime) (r : ManualRun)
      → in_window pubkey q.manual_quota_window_seconds now r ≡ true
      → now ≤ r.created_at + q.manual_quota_window_seconds * second
  in_time now r h = ground arith

  refused_lem :
      (now reset : Datetime)
      → (enforce_manual_quota (some q) pubkey runs now).allowed ≡ false
      → (enforce_manual_quota (some q) pubkey runs now).reset_at ≡ some reset
      → (q.manual_quota_limit ≤ length (runs_at now))
        × (or_now (oldest_of (runs_at now)) now + q.manual_quota_window_seconds * second ≡ reset)
  unfolding enforce_manual_quota manual_quota_decision
  refused_lem now reset h at_reset =
      elim (Bool-cases (ltb (length (runs_at now)) q.manual_quota_limit)) [
        | inl e ↦ absurd (ground (arith, rw e at h))
        | inr e ↦ (ground arith, cc (rw e at at_reset))
      ]

  -- A policy that allows some runs refuses one: as many runs as it allows count at this moment; the reset
  -- that the refusal names is not in the past; and at every moment after it, fewer of these runs count.
  pub enforce-refused :
      (now reset later : Datetime)
      → 0 < q.manual_quota_limit
      → (enforce_manual_quota (some q) pubkey runs now).allowed ≡ false
      → (enforce_manual_quota (some q) pubkey runs now).reset_at ≡ some reset
      → reset < later
      → (q.manual_quota_limit ≤ length (runs_at now))
        × (now ≤ reset)
        × (length (runs_at later) < length (runs_at now))
  enforce-refused now reset later some_allowed h at_reset after =
      let (full, named) = refused_lem now reset h at_reset in
      elim (oldest_of-IsOldest (runs_at now)) [
        | inl nothing ↦ absurd (omega (arith, rw nothing at full))
        | inr (t, e, ((oldest, i, at_oldest), least)) ↦
            let counted : in_window pubkey q.manual_quota_window_seconds now oldest ≡ true =
              All-In _ oldest (runs_at now) (All-select _ runs) i in
            let on_time = in_time now oldest counted in
            let same : t + q.manual_quota_window_seconds * second ≡ reset = rw e at named in
            let ahead : now ≤ reset = omega (arith, on_time, at_oldest, same) in
            (
              full,
              ahead,
              select-less (in_window pubkey q.manual_quota_window_seconds now)
                  (in_window pubkey q.manual_quota_window_seconds later)
                  (λ r w. window_moves now later r (omega (arith, ahead)) w) oldest runs i
                  (out_of_window later oldest (omega (arith, at_oldest, same))),
            )
      ]
