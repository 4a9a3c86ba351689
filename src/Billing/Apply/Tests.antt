-- ===== src/Billing/Apply/Tests.antt =====
-- Runs of `apply_entitlement`, and its theorems at them.
use brainstorm_server.Common.{String, true, false, ◌≡◌, ◌≢◌, refl, ◌⊎◌, none, some, eq_iff}
use brainstorm_server.Billing.Session.{Session, Result, ok, commit}
use brainstorm_server.Billing.Entitlement.{
  EntitlementOutcome, granted, decide_entitlement, resolve_entitlement,
}
use brainstorm_server.Billing.Fixtures.{session, holding}
use brainstorm_server.Billing.Repos.Nsec.{nsec_of}
use brainstorm_server.Billing.Repos.Subscriptions.{subscription_of}
use brainstorm_server.Table.{find, upsert, modify}
use brainstorm_server.Billing.Environment.{fetch_subscription}
use brainstorm_server.Billing.Apply.{
  apply_entitlement, reconcile_user, reconcile_locked, look_up_stored, check_reference,
  choose_current, map_and_record, grant_and_record, resolution_for,
}
use brainstorm_server.Billing.Apply.Safety.{
  Moved, is_decided, apply-all_or_nothing, apply-other_users, apply-Moved,
}

abbrev run_for : String → Result EntitlementOutcome × Session
run_for who = apply_entitlement (holding who "active") (some who) none false false 5 session

alice_is_granted : (run_for "alice").0 ≡ ok (record { applied = true; reason = granted })
unfolding apply_entitlement reconcile_user reconcile_locked fetch_subscription look_up_stored
    check_reference choose_current map_and_record grant_and_record commit resolution_for
    resolve_entitlement decide_entitlement find upsert modify
alice_is_granted = refl

apply-all_or_nothing_example :
    ((is_decided (run_for "alice").0 ≡ false)
      × ((run_for "alice").1.db ≡ session.db)
      × ((run_for "alice").1.saved ≡ session.saved))
    ⊎ ((is_decided (run_for "alice").0 ≡ true)
        × ((run_for "alice").1.saved ≡ (run_for "alice").1.db))
apply-all_or_nothing_example =
    apply-all_or_nothing (holding "alice" "active") (some "alice") none "alice" false false 5
      session refl

bob_is_another : ◌≢◌ {A = String} "bob" "alice"
bob_is_another e = cc ((eq_iff "bob" "alice").1 e)

apply-other_users_example :
    (nsec_of (run_for "alice").1.db "bob" ≡ nsec_of session.db "bob")
    × (subscription_of (run_for "alice").1.db "bob" ≡ subscription_of session.db "bob")
    × ((run_for "alice").1.db.plans ≡ session.db.plans)
    × ((run_for "alice").1.db.schedulings ≡ session.db.schedulings)
    × ((run_for "alice").1.db.events ≡ session.db.events)
apply-other_users_example =
    apply-other_users (holding "alice" "active") (some "alice") none "alice" false false 5 session
      refl "bob" bob_is_another

apply-Moved_example :
    (nsec_of (run_for "alice").1.db "alice" ≡ nsec_of session.db "alice")
    ⊎ Moved (holding "alice" "active") "alice" false 5 session.db (run_for "alice").1.db
apply-Moved_example =
    apply-Moved (holding "alice" "active") (some "alice") none "alice" false false 5 session refl
