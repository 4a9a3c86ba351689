-- ===== src/Billing/Repos/Candidates/Abandon.antt =====
-- `AbandonRule` of app/repos/user_subscription_repo.py, which the sweep asks in SQL and the
-- subscriber's view asks in Python.
use brainstorm_server.Common.{
  ℕ, ◌+◌, String, Bool, ◌&&◌, ◌≡◌, Option, none, some, leb, opt_str_eq, is_none, str_eq, arith,
}
use brainstorm_server.Common.Tri.{Tri, unknown, keeps, of_bool, and3, sql_eq, is_null, is_not_null}
use brainstorm_server.Flash.{Datetime}
use brainstorm_server.Billing.Tables.{UserSubscription}

pub record AbandonRule : Type 0 where
  pub after : ℕ
  pub error : String

-- `column <= now - span`, written without a subtraction, for a column that may be NULL.
abbrev pub elapsed : Option Datetime → ℕ → Datetime → Tri
elapsed none span now = unknown
elapsed (some t) span now = of_bool (leb (t + span) now)

unfoldable pub condition : AbandonRule → Datetime → UserSubscription → Tri
condition rule now r = and3 (of_bool (str_eq r.flash_status "pending")) (
    and3 (is_null r.granted_scheduling_id) (
      and3 (sql_eq r.last_sync_error rule.error)
        (and3 (is_not_null r.sync_error_since) (elapsed r.sync_error_since rule.after now))))

abbrev pub since_elapsed : Option Datetime → ℕ → Datetime → Bool
since_elapsed none span now = Bool.false
since_elapsed (some t) span now = leb (t + span) now

unfoldable pub matches : AbandonRule → Datetime → UserSubscription → Bool
matches rule now r =
    str_eq r.flash_status "pending"
    && (is_none r.granted_scheduling_id
        && (opt_str_eq r.last_sync_error (some rule.error)
            && since_elapsed r.sync_error_since rule.after now))

-- The SQL form and the Python form of the abandonment rule pick the same rows.
pub condition-matches :
    (rule : AbandonRule) (now : Datetime) (r : UserSubscription)
    → keeps (condition rule now r) ≡ matches rule now r
unfolding condition matches
condition-matches rule now r = ground arith
