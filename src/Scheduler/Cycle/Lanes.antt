-- ===== src/Scheduler/Cycle/Lanes.antt =====
-- The lanes of `_run_cycle` of app/cronjobs/scheduler.py hold the candidates that were put in, and a
-- lane that is chosen has one to give.
use brainstorm_server.Common.{
  ℕ, ◌+◌, ◌≤◌, ◌==◌, Bool, true, false, ◌≡◌, refl, sym, subst, ◌∙◌, ◌⊎◌, inl, inr, some, List, [],
  ◌∷◌, arith, Bool-cases, if◌then◌else◌, ltb,
}
use brainstorm_server.Table.Where.{count}
use brainstorm_server.Scheduler.Ranking.{SchedulerCandidate}
use brainstorm_server.Scheduler.Cycle.{
  Lane, append_to, add_to_lane, fill_lanes, active_lanes, best, choose_admission_lane, choose_lane,
  Popped, pop_lane,
}

-- How many candidates in the lanes pass a test.
unfoldable pub count_lanes : (SchedulerCandidate → Bool) → List Lane → ℕ
count_lanes test [] = 0
count_lanes test (l ∷ ls) = count test l.queue + count_lanes test ls

-- A priority among these.
abbrev pub IsAmong : ℕ → List ℕ → Type 0
IsAmong p [] = ⊥
IsAmong p (q ∷ qs) = (p ≡ q) ⊎ IsAmong p qs

IsAmong-skip : (r p q : ℕ) (qs : List ℕ) → IsAmong r (p ∷ qs) → IsAmong r (p ∷ q ∷ qs)
IsAmong-skip r p q qs (inl e) = inl e
IsAmong-skip r p q qs (inr m) = inr (inr m)

best-IsAmong : (beats : ℕ → ℕ → Bool) (p : ℕ) (qs : List ℕ) → IsAmong (best beats p qs) (p ∷ qs)
unfolding best
best-IsAmong beats p [] = inl refl
best-IsAmong beats p (q ∷ qs) = elim (Bool-cases (beats q p)) [
  | inl e ↦
      let step : best beats p (q ∷ qs) ≡ best beats q qs = rw e refl in
      subst (λ r. IsAmong r (p ∷ q ∷ qs)) (sym step) (inr (best-IsAmong beats q qs))
  | inr e ↦
      let step : best beats p (q ∷ qs) ≡ best beats p qs = rw e refl in
      subst (λ r. IsAmong r (p ∷ q ∷ qs)) (sym step)
        (IsAmong-skip (best beats p qs) p q qs (best-IsAmong beats p qs))
]

-- Whatever rule is in force, it chooses one of the active lanes.
pub choose-IsAmong :
    (fairness_enabled : Bool) (counts : ℕ → ℕ) (p : ℕ) (ps : List ℕ)
    → IsAmong (choose_lane fairness_enabled counts p ps) (p ∷ ps)
unfolding choose_lane choose_admission_lane
choose-IsAmong true counts p ps = best-IsAmong _ p ps
choose-IsAmong false counts p ps = best-IsAmong (λ q r. ltb r q) p ps

module _ (test : SchedulerCandidate → Bool) where
  count-append_to :
      (c : SchedulerCandidate) (xs : List SchedulerCandidate)
      → count test (append_to c xs) ≡ (if test c then 1 else 0) + count test xs
  unfolding count
  count-append_to c [] = ground arith
  count-append_to c (x ∷ xs) = ground (arith, count-append_to c xs)

  count-add :
      (c : SchedulerCandidate) (ls : List Lane)
      → count_lanes test (add_to_lane c ls) ≡ (if test c then 1 else 0) + count_lanes test ls
  unfolding count_lanes add_to_lane count
  count-add c [] = ground arith
  count-add c (l ∷ ls) = ground (arith, count-add c ls, count-append_to c l.queue)

  pub count-fill :
      (cs : List SchedulerCandidate) (ls : List Lane)
      → count_lanes test (fill_lanes cs ls) ≡ count test cs + count_lanes test ls
  unfolding fill_lanes count
  count-fill [] ls = omega arith
  count-fill (c ∷ cs) ls = count-fill cs (add_to_lane c ls) ∙ ground (arith, count-add c ls)

-- What comes out of the lanes.
abbrev pub Pops : ℕ → List Lane → Type 0
Pops p ls =
    (q : Popped) × (pop_lane p ls ≡ some q)
    × ((test : SchedulerCandidate → Bool)
        → count_lanes test ls ≡ (if test q.candidate then 1 else 0) + count_lanes test q.lanes)

pop_behind :
    (p r : ℕ) (queue : List SchedulerCandidate) (ls : List Lane)
    → (r == p ≡ false) ⊎ (queue ≡ [])
    → Pops p ls
    → Pops p (record { priority = r; queue = queue } ∷ ls)
unfolding pop_lane count_lanes
pop_behind p r queue ls other (q, e, same) = (
  record q { lanes = record { priority = r; queue = queue } ∷ q.lanes },
  skipped other,
  (λ test. omega (arith, same test)),
)
  where
    skipped :
        (r == p ≡ false) ⊎ (queue ≡ [])
        → pop_lane p (record { priority = r; queue = queue } ∷ ls)
          ≡ some (record q { lanes = record { priority = r; queue = queue } ∷ q.lanes })
    skipped (inl n) = rw n (rw e refl)
    skipped (inr n) = elim (Bool-cases (r == p)) [
      | inl m ↦ rw m (rw n (rw e refl))
      | inr m ↦ rw m (rw e refl)
    ]

pop_cons :
    (p r : ℕ) (queue : List SchedulerCandidate) (ls : List Lane)
    → (IsAmong p (active_lanes ls) → Pops p ls)
    → IsAmong p (active_lanes (record { priority = r; queue = queue } ∷ ls))
    → Pops p (record { priority = r; queue = queue } ∷ ls)
unfolding pop_lane active_lanes count_lanes count
pop_cons p r [] ls later h = pop_behind p r [] ls (inr refl) (later h)
pop_cons p r (c ∷ cs) ls later h = elim (Bool-cases (r == p)) [
  | inl e ↦ (
    record { candidate = c; lanes = record { priority = r; queue = cs } ∷ ls },
    rw e refl,
    (λ test. ground arith),
  )
  | inr e ↦ elim h [
    | inl same ↦ absurd (ground arith)
    | inr m ↦ pop_behind p r (c ∷ cs) ls (inl e) (later m)
  ]
]

-- A lane that is active gives its first candidate, and the lanes keep all others.
pub pop-IsAmong : (p : ℕ) (ls : List Lane) → IsAmong p (active_lanes ls) → Pops p ls
unfolding active_lanes
pop-IsAmong p [] h = absurd h
pop-IsAmong p (l ∷ ls) h = pop_cons p l.priority l.queue ls (pop-IsAmong p ls) h

inactive_cons :
    (test : SchedulerCandidate → Bool) (r : ℕ) (queue : List SchedulerCandidate) (ls : List Lane)
    → (active_lanes ls ≡ [] → count_lanes test ls ≡ 0)
    → active_lanes (record { priority = r; queue = queue } ∷ ls) ≡ []
    → count test queue + count_lanes test ls ≡ 0
unfolding active_lanes count
inactive_cons test r [] ls later h = omega (arith, later h)
inactive_cons test r (c ∷ cs) ls later h = cc

-- Where no lane is active, nobody is left.
pub inactive :
    (test : SchedulerCandidate → Bool) (ls : List Lane)
    → active_lanes ls ≡ []
    → count_lanes test ls ≡ 0
unfolding active_lanes count_lanes
inactive test [] h = refl
inactive test (l ∷ ls) h = inactive_cons test l.priority l.queue ls (inactive test ls) h

count-le :
    (test : SchedulerCandidate → Bool) (cs : List SchedulerCandidate)
    → count test cs ≤ count (λ c. true) cs
unfolding count
count-le test [] = omega arith
count-le test (c ∷ cs) = ground (arith, count-le test cs)

-- No test picks more than all.
pub count_lanes-le :
    (test : SchedulerCandidate → Bool) (ls : List Lane)
    → count_lanes test ls ≤ count_lanes (λ c. true) ls
unfolding count_lanes
count_lanes-le test [] = omega arith
count_lanes-le test (l ∷ ls) = omega (arith, count-le test l.queue, count_lanes-le test ls)
