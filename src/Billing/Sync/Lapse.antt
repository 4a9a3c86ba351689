-- ===== src/Billing/Sync/Lapse.antt =====
-- `revoke_lapsed_entitlements` of app/services/billing_sync_service.py: take back the policies whose
-- paid period ran out, judged from the stored row alone.
pub mod Sweep
use brainstorm_server.Common.{
  ℕ, suc, ◌+◌, String, Bool, true, false, not, Option, none, some, List, [], ◌∷◌, ◌&&◌, is_some,
  is_none, if◌then◌else◌,
}
use brainstorm_server.Flash.{Datetime, unknown_lifecycle_policy}
use brainstorm_server.Billing.Tables.{UserSubscription}
use brainstorm_server.Billing.Session.{Exec, pure, commit, ◌>>=◌, ◌>>◌}
use brainstorm_server.Billing.Entitlement.{
  EntitlementDecision, grant, hold, revoke, Resolution, resolve_entitlement, decide_entitlement,
  is_admin_held,
}
use brainstorm_server.Billing.Repos.Nsec.{
  get_scheduling_source_on_db, set_scheduling_for_pubkey_on_db,
}
use brainstorm_server.Billing.Repos.Subscriptions.{clear_granted_scheduling_on_db}
use brainstorm_server.Billing.Repos.Candidates.{select_entitlement_candidates_on_db}

abbrev pub is_revoke : EntitlementDecision → Bool
is_revoke revoke = true
is_revoke _ = false

-- The sweep knows nothing of the policy behind a row, and unknown never revokes.
unfoldable pub lapse_decision : Datetime → UserSubscription → EntitlementDecision
lapse_decision now row =
    decide_entitlement row.flash_status row.cancel_effective_date row.current_period_end now
      unknown_lifecycle_policy

abbrev write_back : String → Bool → Option ℕ → Option String → Exec ℕ
write_back pubkey false scheduling_id source = pure 0
write_back pubkey true scheduling_id none = pure 0
write_back pubkey true scheduling_id (some source) = do
  set_scheduling_for_pubkey_on_db pubkey scheduling_id source
  clear_granted_scheduling_on_db pubkey
  commit
  pure 1

-- The rest of the loop's body, for a row whose decision is to revoke.
unfoldable pub take_back_lapsed : String → ℕ → Exec ℕ
take_back_lapsed pubkey granted = do
  source ← get_scheduling_source_on_db pubkey
  let resolution : Resolution =
      resolve_entitlement revoke false (is_admin_held source) granted (some granted)
  write_back pubkey resolution.write_policy resolution.scheduling_id resolution.source

abbrev pub revoke_granted : Datetime → UserSubscription → Option ℕ → Exec ℕ
revoke_granted now row none = pure 0
revoke_granted now row (some granted) =
    if is_revoke (lapse_decision now row) then take_back_lapsed row.pubkey granted else pure 0

-- One round of the loop: how many policies it took back.
unfoldable pub revoke_row : Datetime → UserSubscription → Exec ℕ
revoke_row now row = revoke_granted now row row.granted_scheduling_id

unfoldable pub revoke_rows : Datetime → List UserSubscription → Exec ℕ
revoke_rows now [] = pure 0
revoke_rows now (row ∷ rows) = do
  here ← revoke_row now row
  rest ← revoke_rows now rows
  pure (here + rest)

unfoldable pub revoke_lapsed_entitlements : Datetime → Exec ℕ
revoke_lapsed_entitlements now = do rows ← select_entitlement_candidates_on_db; revoke_rows now rows
