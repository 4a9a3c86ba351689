-- ===== src/Scheduler/Quota.antt =====
-- app/services/manual_quota.py: how many manual runs a policy allows in a rolling window, and
-- app/services/publish_drift.py: when a run publishes in full. Times are in microseconds.
pub mod Window
use brainstorm_server.Common.{
  ℕ, suc, ◌+◌, ◌*◌, String, Bool, true, false, ◌&&◌, ◌||◌, Option, none, some, List, [], ◌∷◌, ltb,
  leb, ◌==◌, str_eq, length, if◌then◌else◌,
}
use brainstorm_server.Common.Int.{ℤ, pos, negsuc}
use brainstorm_server.Table.Where.{select}
use brainstorm_server.Flash.{Datetime}
use brainstorm_server.Scheduler.Ranking.{second}

pub record QuotaDecision : Type 0 where
  pub allowed : Bool
  pub reset_at : Option Datetime

abbrev pub or_now : Option Datetime → Datetime → Datetime
or_now none now = now
or_now (some t) now = t

-- `limit` and `window_seconds` are those of a policy, which are not negative.
unfoldable pub manual_quota_decision : ℕ → Option Datetime → ℕ → ℕ → Datetime → QuotaDecision
manual_quota_decision count oldest_in_window limit window_seconds now =
    if ltb count limit then record { allowed = true; reset_at = none } else record {
      allowed = false;
      reset_at = some (or_now oldest_in_window now + window_seconds * second);
    }

-- A request of `brainstorm_request`, with the columns that the count reads.
pub record ManualRun : Type 0 where
  pub pubkey : String
  pub trigger_source : String
  pub status_ta_publication : String
  pub created_at : Datetime

-- `created_at >= now - window`, written without a subtraction.
abbrev pub in_window : String → ℕ → Datetime → ManualRun → Bool
in_window pubkey window_seconds now r =
    str_eq r.pubkey pubkey
    && (str_eq r.trigger_source "manual"
        && (str_eq r.status_ta_publication "success"
            && leb now (r.created_at + window_seconds * second)))

abbrev earliest : Datetime → Option Datetime → Option Datetime
earliest t none = some t
earliest t (some u) = if ltb u t then some u else some t

unfoldable pub oldest_of : List ManualRun → Option Datetime
oldest_of [] = none
oldest_of (r ∷ rs) = earliest r.created_at (oldest_of rs)

abbrev pub count_successful_manual_runs_in_window_on_db :
    String → ℕ → Datetime → List ManualRun → ℕ × Option Datetime
count_successful_manual_runs_in_window_on_db pubkey window_seconds now runs =
    let here = select (in_window pubkey window_seconds now) runs in (length here, oldest_of here)

-- The quota of the policy that the user holds.
pub record ManualQuota : Type 0 where
  pub manual_quota_limit : ℕ
  pub manual_quota_window_seconds : ℕ

abbrev decide_with : ℕ × Option Datetime → ManualQuota → Datetime → QuotaDecision
decide_with (count, oldest) q now =
    manual_quota_decision count oldest q.manual_quota_limit q.manual_quota_window_seconds now

-- `enforce_manual_quota`: the 429 has the time of the reset.
unfoldable pub enforce_manual_quota :
    Option ManualQuota → String → List ManualRun → Datetime → QuotaDecision
enforce_manual_quota none pubkey runs now = record { allowed = true; reset_at = none }
enforce_manual_quota (some q) pubkey runs now =
    decide_with
      (count_successful_manual_runs_in_window_on_db pubkey q.manual_quota_window_seconds now runs) q
      now

-- `force_full` is a nullable column.
abbrev pub resolve_full_sync : Bool → Option Bool → Bool
resolve_full_sync setting_full none = setting_full
resolve_full_sync setting_full (some force) = setting_full || force

abbrev pub backstop_due : ℕ → ℤ → Bool
backstop_due runs_since_full (negsuc n) = false
backstop_due runs_since_full (pos every_n) = ltb 0 every_n && leb every_n (runs_since_full + 1)

pub record ForceFull : Type 0 where
  pub relay : Bool
  pub neo4j : Bool

pub data ResyncTarget : Type 0 where
  only_relay only_neo4j both : ResyncTarget

abbrev pub resync_targets : ResyncTarget → ForceFull
resync_targets only_relay = record { relay = true; neo4j = false }
resync_targets only_neo4j = record { relay = false; neo4j = true }
resync_targets both = record { relay = true; neo4j = true }
