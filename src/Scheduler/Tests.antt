-- ===== src/Scheduler/Tests.antt =====
-- The theorems of the scheduler modules at a concrete cycle.
use brainstorm_server.Common.{◌<◌, All, arith, refl}
use brainstorm_server.Table.Where.{select}
use brainstorm_server.Scheduler.Leader.{
  Call, run_calls, acquire_or_renew_leader, acquire_or_renew_with, set_nx,
}
use brainstorm_server.Scheduler.Leader.Exclusion.{acquire-exclusive}
use brainstorm_server.Scheduler.Leader.Race.{taken, renewal-takes_over}
use brainstorm_server.Scheduler.Quota.{
  ManualQuota, ManualRun, enforce_manual_quota, manual_quota_decision, oldest_of,
}
use brainstorm_server.Scheduler.Quota.Window.{runs_at, enforce-refused}
use brainstorm_server.Common.{
  ℕ, ◌≤◌, String, Bool, true, false, ◌&&◌, ◌≡◌, none, some, List, [], ◌∷◌, length, str_eq,
}
use brainstorm_server.Table.Where.{count}
use brainstorm_server.Scheduler.Ranking.{
  SchedulerCandidate, admission_budget, is_eligible, rank_overdue_candidates,
}
use brainstorm_server.Scheduler.Ranking.Eligible.{IsDecided}
use brainstorm_server.Scheduler.Ranking.Order.{IsRanked, rank_lem}
use brainstorm_server.Scheduler.Cycle.{run_cycle}
use brainstorm_server.Scheduler.Cycle.Admission.{min, cycle_lem}

abbrev never : String → ℕ → SchedulerCandidate
never pubkey priority = record {
  pubkey = pubkey;
  priority = priority;
  interval_seconds = 60;
  last_published = none;
  last_failed_at = none;
  enabled = true;
}

abbrev waiting : List SchedulerCandidate
waiting = never "alice" 1 ∷ never "bob" 5 ∷ record (never "carol" 5) { enabled = false } ∷ []

abbrev follows : String → Bool
follows pubkey = str_eq pubkey "alice"

rank_lem_example :
    IsRanked (rank_overdue_candidates waiting 100)
    × All (IsDecided 100) waiting
    × ((test : SchedulerCandidate → Bool)
        → count test (rank_overdue_candidates waiting 100)
          ≡ count (λ c. is_eligible 100 c && test c) waiting)
rank_lem_example = rank_lem waiting 100

cycle_lem_example :
    (length (run_cycle true follows 4 1 false (some waiting) 100 (λ p. 0)).enqueued
      ≡ min
          (admission_budget 4 1 false)
          (count (λ c. is_eligible 100 c && follows c.pubkey) waiting))
    × ((test : SchedulerCandidate → Bool)
        → count test (run_cycle true follows 4 1 false (some waiting) 100 (λ p. 0)).enqueued
          ≤ count (λ c. is_eligible 100 c && (follows c.pubkey && test c)) waiting)
cycle_lem_example = cycle_lem true follows 4 1 false waiting 100 (λ p. 0)

-- One instance has the lock; another asks, and the first renews.
abbrev calls : List Call
calls =
    record { at = 15; instance_id = "b" }
    ∷ record { at = 20; instance_id = "a" }
    ∷ record { at = 29; instance_id = "b" }
    ∷ []

acquire-exclusive_example :
    All
      (λ (r : Call × Bool). r.1 ≡ str_eq "a" r.0.instance_id)
      (run_calls 20 calls (acquire_or_renew_leader 10 "a" 20 none).1)
unfolding acquire_or_renew_with set_nx
acquire-exclusive_example =
    acquire-exclusive 20 10 "a" none calls refl
      ((omega arith, omega arith), ((omega arith, omega arith), ((omega arith, omega arith), tt)))

renewal-takes_over_example :
    ((acquire_or_renew_leader 30 "b" 20 (some ("a", 30))).0 ≡ true)
    × (acquire_or_renew_with
          (λ k. k)
          (taken "a" "b" 20 30 29 29 30 31)
          29
          29
          31
          "a"
          20
          (some ("a", 30))
        ≡ (true, some ("a", 51)))
renewal-takes_over_example =
    renewal-takes_over "a" "b" 20 30 29 29 30 31 (omega arith) (omega arith) (omega arith)
      (omega arith) (omega arith)

abbrev weekly : ManualQuota
weekly = record { manual_quota_limit = 1; manual_quota_window_seconds = 604_800 }

abbrev manual_run : ManualRun
manual_run = record {
  pubkey = "alice";
  trigger_source = "manual";
  status_ta_publication = "success";
  created_at = 5;
}

enforce-refused_example :
    (1 ≤ length (runs_at weekly "alice" (manual_run ∷ []) 10))
    × (10 ≤ 604_800_000_005)
    × (length (runs_at weekly "alice" (manual_run ∷ []) 604_800_000_006)
        < length (runs_at weekly "alice" (manual_run ∷ []) 10))
unfolding enforce_manual_quota manual_quota_decision select oldest_of
enforce-refused_example =
    enforce-refused weekly "alice" (manual_run ∷ []) 10 604_800_000_005 604_800_000_006
      (omega arith) refl refl (omega arith)
