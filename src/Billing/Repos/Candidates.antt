-- ===== src/Billing/Repos/Candidates.antt =====
-- app/repos/user_subscription_repo.py: which subscribers the periodic jobs look at. The WHERE
-- clauses keep SQL's third truth value, since several of these columns may be NULL.
pub mod Abandon
pub use Abandon.*
use brainstorm_server.Common.{
  ℕ, ◌+◌, String, Bool, Option, none, some, List, [], ◌∷◌, leb, ltb, is_some, str_eq, if◌then◌else◌,
  take,
}
use brainstorm_server.Common.Tri.{
  Tri, holds, fails, keeps, of_bool, and3, or3, not3, sql_eq, sql_le, is_null, is_not_null,
}
use brainstorm_server.Table.Where.{select}
use brainstorm_server.Flash.{Datetime, past_due_status, pending_status}
use brainstorm_server.Billing.Tables.{Db, UserSubscription}
use brainstorm_server.Billing.Session.{Exec, reads}

abbrev pub settled_condition : UserSubscription → Tri
settled_condition r =
    and3 (of_bool (str_eq r.flash_status "expired"))
      (and3 (is_null r.granted_scheduling_id) (is_null r.last_sync_error))

abbrev pub select_entitlement_candidates_on_db : Exec (List UserSubscription)
select_entitlement_candidates_on_db =
    reads λ db. select (λ r. is_some r.granted_scheduling_id) db.subscriptions

abbrev pub hour : ℕ
hour = 3_600_000_000

-- The five groups whose state only Flash can settle.
unfoldable pub needs_asking : Datetime → ℕ → UserSubscription → Tri
needs_asking now stale_after r =
    or3
      (or3 (of_bool (str_eq r.flash_status past_due_status))
        (of_bool (str_eq r.flash_status pending_status)))
      (or3
        (and3 (of_bool (str_eq r.flash_status "active"))
          (and3 (is_not_null r.current_period_end) (sql_le r.current_period_end now)))
        (or3 (and3 (is_not_null r.next_billing_date) (sql_le r.next_billing_date (now + hour)))
          (or3 (is_null r.last_synced_at) (elapsed r.last_synced_at stale_after now))))

unfoldable pub reconcile_where : Datetime → ℕ → AbandonRule → UserSubscription → Bool
unfolding needs_asking
reconcile_where now stale_after abandoned r = keeps (
    and3 (needs_asking now stale_after r)
      (and3 (not3 (condition abandoned now r)) (not3 (settled_condition r))))

-- ORDER BY last_synced_at ASC NULLS FIRST; rows that compare equal keep the table's order.
abbrev pub synced_before : Option Datetime → Option Datetime → Bool
synced_before none b = Bool.false
synced_before (some a) none = Bool.true
synced_before (some a) (some b) = ltb b a

unfoldable pub insert_by_sync : UserSubscription → List UserSubscription → List UserSubscription
insert_by_sync r [] = r ∷ []
insert_by_sync r (x ∷ xs) =
    if synced_before r.last_synced_at x.last_synced_at then x ∷ insert_by_sync r xs else r ∷ x ∷ xs

unfoldable pub order_by_sync : List UserSubscription → List UserSubscription
unfolding insert_by_sync
order_by_sync [] = []
order_by_sync (r ∷ rs) = insert_by_sync r (order_by_sync rs)

abbrev pub select_reconcile_candidates_on_db :
    Datetime → ℕ → ℕ → AbandonRule → Exec (List UserSubscription)
select_reconcile_candidates_on_db now stale_after limit abandoned = reads λ db.
    take limit (order_by_sync (select (reconcile_where now stale_after abandoned) db.subscriptions))
