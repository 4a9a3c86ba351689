-- ===== src/Scheduler/Cycle.antt =====
-- `_run_cycle` of app/cronjobs/scheduler.py. `has_grapevine` is what Neo4j answers of a user, at a
-- time in the cycle when it is asked once for each. Deficits are compared as exact fractions, where
-- Python rounds them.
pub mod Lanes
pub mod Admission
use brainstorm_server.Common.{
  ℕ, zero, suc, ◌+◌, ◌*◌, String, Bool, true, false, not, ◌&&◌, ◌||◌, Option, none, some, List, [],
  ◌∷◌, ◌==◌, leb, ltb, length, if◌then◌else◌,
}
use brainstorm_server.Flash.{Datetime}
use brainstorm_server.Scheduler.Ranking.{
  SchedulerCandidate, admission_budget, rank_overdue_candidates,
}

-- One entry of the dict of lanes, in the order of their insertion.
pub record Lane : Type 0 where
  pub priority : ℕ
  pub queue : List SchedulerCandidate

abbrev append_to : SchedulerCandidate → List SchedulerCandidate → List SchedulerCandidate
append_to c [] = c ∷ []
append_to c (x ∷ xs) = x ∷ append_to c xs

-- `lanes.setdefault(candidate.priority, []).append(candidate)`.
unfoldable pub add_to_lane : SchedulerCandidate → List Lane → List Lane
add_to_lane c [] = record { priority = c.priority; queue = c ∷ [] } ∷ []
add_to_lane c (l ∷ ls) =
    let rest = add_to_lane c ls in
    if l.priority == c.priority then record l { queue = append_to c l.queue } ∷ ls else l ∷ rest

unfoldable pub fill_lanes : List SchedulerCandidate → List Lane → List Lane
fill_lanes [] lanes = lanes
fill_lanes (c ∷ cs) lanes = fill_lanes cs (add_to_lane c lanes)

abbrev pub has_queue : Lane → Bool
has_queue l = elim l.queue [ [] ↦ false | c ∷ cs ↦ true ]

-- `[p for p, queue in lanes.items() if queue]`.
unfoldable pub active_lanes : List Lane → List ℕ
active_lanes [] = []
active_lanes (l ∷ ls) =
    let rest = active_lanes ls in if has_queue l then l.priority ∷ rest else rest

-- `max(first, *others, key=...)`, the first of several greatest.
unfoldable pub best : (ℕ → ℕ → Bool) → ℕ → List ℕ → ℕ
best beats p [] = p
best beats p (q ∷ qs) = best beats (if beats q p then q else p) qs

unfoldable pub total_weight : List ℕ → ℕ
total_weight [] = 0
total_weight (p ∷ ps) = (p + 1) + total_weight ps

unfoldable pub total_admitted : (ℕ → ℕ) → List ℕ → ℕ
total_admitted counts [] = 0
total_admitted counts (p ∷ ps) = counts p + total_admitted counts ps

-- The key (deficit(q), q) is greater than that of p: with `admitted` in all, the deficit of p is
-- (p + 1) / weight - counts p / admitted, or (p + 1) / weight if none was admitted.
abbrev pub further_below : ℕ → ℕ → (ℕ → ℕ) → ℕ → ℕ → Bool
further_below weight zero counts q p = ltb p q
further_below weight (suc n) counts q p =
    let mine = (q + 1) * suc n + counts p * weight in
    let other = (p + 1) * suc n + counts q * weight in ltb other mine || (mine == other && ltb p q)

unfoldable pub choose_admission_lane : (ℕ → ℕ) → ℕ → List ℕ → ℕ
choose_admission_lane counts p ps =
    best (further_below (total_weight (p ∷ ps)) (total_admitted counts (p ∷ ps)) counts) p ps

unfoldable pub choose_lane : Bool → (ℕ → ℕ) → ℕ → List ℕ → ℕ
choose_lane fairness_enabled counts p ps =
    if fairness_enabled then choose_admission_lane counts p ps else best (λ q r. ltb r q) p ps

pub record Popped : Type 0 where
  pub candidate : SchedulerCandidate
  pub lanes : List Lane

abbrev behind : Lane → Option Popped → Option Popped
behind l none = none
behind l (some p) = some (record p { lanes = l ∷ p.lanes })

abbrev pop_here : Lane → List SchedulerCandidate → List Lane → Option Popped → Option Popped
pop_here l [] ls further = further
pop_here l (c ∷ cs) ls further =
    some (record { candidate = c; lanes = record l { queue = cs } ∷ ls })

-- `lanes[lane].pop(0)`. A dict has one lane of each priority.
unfoldable pub pop_lane : ℕ → List Lane → Option Popped
pop_lane p [] = none
pop_lane p (l ∷ ls) =
    let further = behind l (pop_lane p ls) in
    if l.priority == p then pop_here l l.queue ls further else further

abbrev pub counted : ℕ → (ℕ → ℕ) → ℕ → ℕ
counted lane counts p = if p == lane then suc (counts p) else counts p

-- The priority of each request that the cycle makes goes into the counts, which outlive it.
pub record Cycle : Type 0 where
  pub enqueued : List SchedulerCandidate
  pub counts : ℕ → ℕ

abbrev pub idle : (ℕ → ℕ) → Cycle
idle counts = record { enqueued = []; counts = counts }

abbrev pub with_request : SchedulerCandidate → Cycle → Cycle
with_request c cycle = record cycle { enqueued = c ∷ cycle.enqueued }

module _ (fairness_enabled : Bool) (has_grapevine : String → Bool) where
  -- One round with the candidate that was popped. A user with no grapevine costs no budget.
  abbrev pub after_pop : (ℕ → List Lane → (ℕ → ℕ) → Cycle) → ℕ → ℕ → (ℕ → ℕ) → Option Popped → Cycle
  after_pop rest budget lane counts none = idle counts
  after_pop rest budget lane counts (some p) =
      if has_grapevine p.candidate.pubkey
      then with_request p.candidate (rest budget p.lanes (counted lane counts))
      else rest (suc budget) p.lanes counts

  abbrev pub round : (ℕ → List Lane → (ℕ → ℕ) → Cycle) → ℕ → List Lane → (ℕ → ℕ) → List ℕ → Cycle
  round rest budget lanes counts [] = idle counts
  round rest budget lanes counts (p ∷ ps) =
      let lane = choose_lane fairness_enabled counts p ps in
      after_pop rest budget lane counts (pop_lane lane lanes)

  -- The `while`, on fuel; the budget is what is left of it. Each round pops one candidate, so the
  -- number of them is fuel enough.
  unfoldable pub admit : ℕ → ℕ → List Lane → (ℕ → ℕ) → Cycle
  admit zero budget lanes counts = idle counts
  admit (suc fuel) zero lanes counts = idle counts
  admit (suc fuel) (suc budget) lanes counts =
      round (admit fuel) budget lanes counts (active_lanes lanes)

  -- The candidates are those that the database gives under the default policy, `none` without one.
  unfoldable pub run_cycle :
      ℕ → ℕ → Bool → Option (List SchedulerCandidate) → Datetime → (ℕ → ℕ) → Cycle
  run_cycle target inflight interactive none now counts = idle counts
  run_cycle target inflight interactive (some candidates) now counts =
      let ranked = rank_overdue_candidates candidates now in
      admit (length ranked) (admission_budget target inflight interactive) (fill_lanes ranked [])
        counts
