-- ===== src/Scheduler/Cycle/Admission.antt =====
-- How many requests `_run_cycle` of app/cronjobs/scheduler.py makes, and for whom.
use brainstorm_server.Common.{
  ℕ, zero, suc, ◌+◌, ◌≤◌, String, Bool, true, ◌&&◌, ◌≡◌, refl, sym, ap, subst, ◌∙◌, some, List, [],
  ◌∷◌, arith, length, Bool-cases, inl, inr, if◌then◌else◌, leb,
}
use brainstorm_server.Table.Where.{count}
use brainstorm_server.Flash.{Datetime}
use brainstorm_server.Scheduler.Ranking.{
  SchedulerCandidate, admission_budget, rank_overdue_candidates, is_eligible,
}
use brainstorm_server.Scheduler.Ranking.Order.{rank_lem}
use brainstorm_server.Scheduler.Cycle.{
  Lane, fill_lanes, active_lanes, choose_lane, pop_lane, counted, Cycle, admit, round, after_pop,
  run_cycle,
}
use brainstorm_server.Scheduler.Cycle.Lanes.{
  count_lanes, IsAmong, Pops, choose-IsAmong, pop-IsAmong, inactive, count_lanes-le, count-fill,
}

abbrev pub min : ℕ → ℕ → ℕ
min a b = if leb a b then a else b

module _ (fairness_enabled : Bool) (has_grapevine : String → Bool) where
  abbrev pub can_run : SchedulerCandidate → Bool
  can_run c = has_grapevine c.pubkey

  abbrev pub all : SchedulerCandidate → Bool
  all c = true

  -- What the rest of the loop is to show of its part.
  abbrev Fills : (ℕ → List Lane → (ℕ → ℕ) → Cycle) → ℕ → Type 0
  Fills rest fuel =
      (budget : ℕ) (ls : List Lane) (counts : ℕ → ℕ)
      → count_lanes all ls ≤ fuel
      → length (rest budget ls counts).enqueued ≡ min budget (count_lanes can_run ls)

  popped-length :
      (rest : ℕ → List Lane → (ℕ → ℕ) → Cycle) (fuel budget lane : ℕ) (ls : List Lane)
      (counts : ℕ → ℕ)
      → Fills rest fuel
      → count_lanes all ls ≤ suc fuel
      → Pops lane ls
      → length
          (after_pop fairness_enabled has_grapevine rest budget lane counts
            (pop_lane lane ls)).enqueued
        ≡ min (suc budget) (count_lanes can_run ls)
  popped-length rest fuel budget lane ls counts fills enough (q, e, same) =
      let less : count_lanes all q.lanes ≤ fuel = omega (arith, enough, same all) in
      elim (Bool-cases (has_grapevine q.candidate.pubkey)) [
        | inl g ↦
            let one : count_lanes can_run ls ≡ 1 + count_lanes can_run q.lanes =
              same can_run ∙ rw g refl in
            rw e (rw g (ground (arith, fills budget q.lanes (counted lane counts) less, one)))
        | inr g ↦
            let none_here : count_lanes can_run ls ≡ 0 + count_lanes can_run q.lanes =
              same can_run ∙ rw g refl in
            rw e (rw g (ground (arith, fills (suc budget) q.lanes counts less, none_here)))
      ]

  round-length :
      (rest : ℕ → List Lane → (ℕ → ℕ) → Cycle) (fuel budget : ℕ) (ls : List Lane) (counts : ℕ → ℕ)
      (ps : List ℕ)
      → Fills rest fuel
      → count_lanes all ls ≤ suc fuel
      → active_lanes ls ≡ ps
      → length (round fairness_enabled has_grapevine rest budget ls counts ps).enqueued
        ≡ min (suc budget) (count_lanes can_run ls)
  round-length rest fuel budget ls counts [] fills enough e = ground (arith, inactive can_run ls e)
  round-length rest fuel budget ls counts (p ∷ ps) fills enough e =
      let lane = choose_lane fairness_enabled counts p ps in
      popped-length rest fuel budget lane ls counts fills enough (
        pop-IsAmong lane ls
          (subst (IsAmong lane) (sym e) (choose-IsAmong fairness_enabled counts p ps)))

  -- With fuel for all candidates in the lanes, the loop makes as many requests as the budget allows
  -- and there are candidates who can run.
  admit-length :
      (fuel budget : ℕ) (ls : List Lane) (counts : ℕ → ℕ)
      → count_lanes all ls ≤ fuel
      → length (admit fairness_enabled has_grapevine fuel budget ls counts).enqueued
        ≡ min budget (count_lanes can_run ls)
  unfolding admit
  admit-length zero budget ls counts enough = ground (arith, count_lanes-le can_run ls)
  admit-length (suc fuel) zero ls counts enough = ground arith
  admit-length (suc fuel) (suc budget) ls counts enough =
      round-length (admit fairness_enabled has_grapevine fuel) fuel budget ls counts
        (active_lanes ls) (admit-length fuel) enough refl

  module _ (test : SchedulerCandidate → Bool) where
    abbrev runs_and_test : SchedulerCandidate → Bool
    runs_and_test c = can_run c && test c

    abbrev Within : (ℕ → List Lane → (ℕ → ℕ) → Cycle) → Type 0
    Within rest =
        (budget : ℕ) (ls : List Lane) (counts : ℕ → ℕ)
        → count test (rest budget ls counts).enqueued ≤ count_lanes runs_and_test ls

    popped-Within :
        (rest : ℕ → List Lane → (ℕ → ℕ) → Cycle) (budget lane : ℕ) (ls : List Lane) (counts : ℕ → ℕ)
        → Within rest
        → Pops lane ls
        → count test
            (after_pop fairness_enabled has_grapevine rest budget lane counts
              (pop_lane lane ls)).enqueued
          ≤ count_lanes runs_and_test ls
    unfolding count
    popped-Within rest budget lane ls counts within (q, e, same) =
        let total : count_lanes runs_and_test ls
            ≡ (if runs_and_test q.candidate then 1 else 0) + count_lanes runs_and_test q.lanes =
          same runs_and_test in
        elim (Bool-cases (has_grapevine q.candidate.pubkey)) [
          | inl g ↦
              rw e (rw g (ground (arith, within budget q.lanes (counted lane counts), total, g)))
          | inr g ↦ rw e (rw g (omega (arith, within (suc budget) q.lanes counts, total)))
        ]

    round-Within :
        (rest : ℕ → List Lane → (ℕ → ℕ) → Cycle) (budget : ℕ) (ls : List Lane) (counts : ℕ → ℕ)
        (ps : List ℕ)
        → Within rest
        → active_lanes ls ≡ ps
        → count test (round fairness_enabled has_grapevine rest budget ls counts ps).enqueued
          ≤ count_lanes runs_and_test ls
    unfolding count
    round-Within rest budget ls counts [] within e = omega arith
    round-Within rest budget ls counts (p ∷ ps) within e =
        let lane = choose_lane fairness_enabled counts p ps in
        popped-Within rest budget lane ls counts within (
          pop-IsAmong lane ls
            (subst (IsAmong lane) (sym e) (choose-IsAmong fairness_enabled counts p ps)))

    -- Only candidates who can run are admitted, each at most as often as they wait.
    admit-Within : (fuel : ℕ) → Within (admit fairness_enabled has_grapevine fuel)
    unfolding admit count
    admit-Within zero budget ls counts = omega arith
    admit-Within (suc fuel) zero ls counts = omega arith
    admit-Within (suc fuel) (suc budget) ls counts =
        round-Within (admit fairness_enabled has_grapevine fuel) budget ls counts (active_lanes ls)
          (admit-Within fuel) refl

length-count : (cs : List SchedulerCandidate) → count (λ c. true) cs ≡ length cs
unfolding count
length-count [] = refl
length-count (c ∷ cs) = omega (arith, length-count cs)

-- One cycle makes exactly as many requests as the budget allows and there are candidates who are
-- eligible and have a grapevine, whichever rule picks the lanes. Only such candidates are admitted,
-- each at most as often as the database gave them.
pub cycle_lem :
    (fairness_enabled : Bool) (has_grapevine : String → Bool) (target inflight : ℕ)
    (interactive : Bool) (candidates : List SchedulerCandidate) (now : Datetime) (counts : ℕ → ℕ)
    → let cycle =
        run_cycle fairness_enabled has_grapevine target inflight interactive
          (some candidates)
          now
          counts in
      (length cycle.enqueued
        ≡ min
            (admission_budget target inflight interactive)
            (count (λ c. is_eligible now c && has_grapevine c.pubkey) candidates))
      × ((test : SchedulerCandidate → Bool)
          → count test cycle.enqueued
            ≤ count (λ c. is_eligible now c && (has_grapevine c.pubkey && test c)) candidates)
unfolding run_cycle count_lanes
cycle_lem fairness_enabled has_grapevine target inflight interactive candidates now counts =
    let ranked = rank_overdue_candidates candidates now in
    let lanes = fill_lanes ranked [] in
    let budget = admission_budget target inflight interactive in
    let ranking = (rank_lem candidates now).2 in
    let enough : count_lanes (λ c. true) lanes ≤ length ranked =
      omega (arith, count-fill (λ c. true) ranked [], length-count ranked) in
    let runners : count_lanes (λ c. has_grapevine c.pubkey) lanes
        ≡ count (λ c. is_eligible now c && has_grapevine c.pubkey) candidates =
      omega (
        arith,
        count-fill (λ c. has_grapevine c.pubkey) ranked [],
        ranking (λ c. has_grapevine c.pubkey),
      ) in
    (
      admit-length fairness_enabled has_grapevine (length ranked) budget lanes counts enough
          ∙ ap (min budget) runners,
      (λ test. omega (
        arith,
        admit-Within fairness_enabled has_grapevine test (length ranked) budget lanes counts,
        count-fill (λ c. has_grapevine c.pubkey && test c) ranked [],
        ranking (λ c. has_grapevine c.pubkey && test c),
      )),
    )
