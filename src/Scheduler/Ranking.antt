-- ===== src/Scheduler/Ranking.antt =====
-- The decisions of app/services/scheduler.py. Times are in microseconds, whose differences Python's
-- `total_seconds` keeps apart for spans of less than a century.
pub mod Eligible
pub mod Order
use brainstorm_server.Common.{
  ℕ, ◌+◌, ◌-◌, ◌*◌, String, Bool, true, false, not, ◌&&◌, ◌||◌, Option, none, some, List, [], ◌∷◌,
  ◌==◌, leb, ltb, is_in, str_eq, if◌then◌else◌,
}
use brainstorm_server.Table.Where.{select}
use brainstorm_server.Flash.{Datetime}

pub record SchedulerCandidate : Type 0 where
  pub pubkey : String
  pub priority : ℕ
  pub interval_seconds : ℕ
  pub last_published : Option Datetime
  pub last_failed_at : Option Datetime
  pub enabled : Bool

abbrev pub retry_backoff_seconds : ℕ
retry_backoff_seconds = 3600

abbrev pub second : ℕ
second = 1_000_000

abbrev pub non_terminal_statuses : List String
non_terminal_statuses = "waiting" ∷ "ongoing" ∷ []

unfoldable pub request_in_pipeline : String → String → Bool
request_in_pipeline status ta_status =
    if is_in status non_terminal_statuses
    then true
    else str_eq status "success" && is_in ta_status non_terminal_statuses

-- `max(0, target - inflight)`.
unfoldable pub admission_budget : ℕ → ℕ → Bool → ℕ
admission_budget target inflight interactive_in_flight =
    if interactive_in_flight then 0 else target - inflight

-- `now - last_published` is at least the interval.
unfoldable pub is_overdue : SchedulerCandidate → Datetime → Bool
is_overdue c now = elim c.last_published [
  | none ↦ true
  | some t ↦ leb (t + c.interval_seconds * second) now
]

unfoldable pub in_retry_backoff : SchedulerCandidate → Datetime → ℕ → Bool
in_retry_backoff c now backoff = elim c.last_failed_at [
  | none ↦ false
  | some t ↦ ltb now (t + backoff * second)
]

unfoldable pub is_eligible : Datetime → SchedulerCandidate → Bool
is_eligible now c =
    c.enabled && (is_overdue c now && not (in_retry_backoff c now retry_backoff_seconds))

-- More seconds overdue at any one time: never published is infinitely many.
abbrev pub longer_overdue : Option Datetime → Option Datetime → Bool
longer_overdue none none = false
longer_overdue none (some b) = true
longer_overdue (some a) none = false
longer_overdue (some a) (some b) = ltb a b

-- The sort key of the first is greater.
unfoldable pub outranks : SchedulerCandidate → SchedulerCandidate → Bool
outranks a b =
    ltb b.priority a.priority
    || (a.priority == b.priority && longer_overdue a.last_published b.last_published)

unfoldable pub insert_ranked :
    SchedulerCandidate → List SchedulerCandidate → List SchedulerCandidate
insert_ranked c [] = c ∷ []
insert_ranked c (x ∷ xs) = if outranks x c then x ∷ insert_ranked c xs else c ∷ x ∷ xs

-- `sorted(..., reverse=True)`, which keeps the order of candidates with equal keys.
unfoldable pub sort_ranked : List SchedulerCandidate → List SchedulerCandidate
unfolding insert_ranked
sort_ranked [] = []
sort_ranked (c ∷ cs) = insert_ranked c (sort_ranked cs)

unfoldable pub rank_overdue_candidates :
    List SchedulerCandidate → Datetime → List SchedulerCandidate
rank_overdue_candidates candidates now = sort_ranked (select (is_eligible now) candidates)
