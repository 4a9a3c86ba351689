-- ===== src/Billing/Entitlement/Resolve.antt =====
-- What `resolve_entitlement` of app/services/billing_service.py may write.
use brainstorm_server.Common.{
  ℕ, Bool, true, false, ◌≡◌, ◌⊎◌, Option, none, some, arith, if◌then◌else◌,
}
use brainstorm_server.Billing.Tables.{default_source, billing_source, admin_source}
use brainstorm_server.Billing.Entitlement.{
  EntitlementDecision, grant, Resolution, is_settled, resolve_entitlement,
}

module _ (d : EntitlementDecision) (is_blocked admin_held : Bool) (plan : ℕ)
    (existing : Option ℕ) where
  abbrev outcome : Resolution
  outcome = resolve_entitlement d is_blocked admin_held plan existing

  -- Billing never takes an admin's assignment away: for a user held by an admin, whatever is
  -- written is a grant of the paid plan under the source `admin`; for any other user it writes the
  -- source `billing` or `default`. Without a write there is no source.
  pub resolve-keeps_admin :
      ((outcome.write_policy ≡ true)
        × (admin_held ≡ true)
        × (outcome.source ≡ some admin_source)
        × (outcome.scheduling_id ≡ some plan)
        × (d ≡ grant))
      ⊎ (((outcome.write_policy ≡ true)
            × (admin_held ≡ false)
            × ((outcome.source ≡ some billing_source) ⊎ (outcome.source ≡ some default_source)))
          ⊎ ((outcome.write_policy ≡ false) × (outcome.source ≡ none)))
  unfolding resolve_entitlement
  resolve-keeps_admin = ground arith

  -- What is recorded as granted is what was assigned, if the policy is written, and otherwise what
  -- was recorded before.
  pub resolve-records :
      outcome.granted_scheduling_id
      ≡ (if outcome.write_policy then outcome.scheduling_id else existing)
  unfolding resolve_entitlement
  resolve-records = ground arith

  -- Deciding the same again from the state that the first decision leaves changes nothing more.
  pub resolve-again :
      resolve_entitlement d is_blocked admin_held plan outcome.granted_scheduling_id ≡ outcome
  unfolding resolve_entitlement
  resolve-again = ground arith

  pub resolve-settles : is_settled outcome.reason ≡ true
  unfolding resolve_entitlement
  resolve-settles = ground arith
