-- ===== src/Billing/Unresolved/Tests.antt =====
-- Attributing a signup, and the fallback, at a concrete database.
use brainstorm_server.Common.{true, false, ◌≡◌, refl, ◌⊎◌, some, []}
use brainstorm_server.Billing.Session.{raise, http_exception}
use brainstorm_server.Billing.Fixtures.{session, holding, outage}
use brainstorm_server.Billing.Repos.Subscriptions.{first_with_flash_id}
use brainstorm_server.Billing.Repos.Nsec.{nsec_of}
use brainstorm_server.Billing.Fallback.{apply_payload_fallback}
use brainstorm_server.Billing.Fallback.Revocation.{TakenBack, fallback-TakenBack}
use brainstorm_server.Billing.Unresolved.{held_by_another}
use brainstorm_server.Billing.Unresolved.Attribution.{Ends, run, attribute_lem}

attribute_lem_example :
    ((held_by_another (first_with_flash_id "sub_1" session.db.subscriptions) "alice" ≡ true)
      × (run (holding "" "active") 50 "sub_1" "alice" "carol" [] session
          ≡ (raise (http_exception 409), session)))
    ⊎ ((held_by_another (first_with_flash_id "sub_1" session.db.subscriptions) "alice" ≡ false)
        × Ends
            (holding "" "active")
            50
            "sub_1"
            "alice"
            "carol"
            []
            (run (holding "" "active") 50 "sub_1" "alice" "carol" [] session))
attribute_lem_example =
    attribute_lem (holding "" "active") 50 "sub_1" "alice" "carol" [] session (refl, refl)

fallback-TakenBack_example :
    TakenBack "subscription.expired" (some "alice") "alice" (nsec_of session.db "alice") (
      nsec_of
        (apply_payload_fallback outage "subscription.expired" (some "alice") session).1.db
        "alice")
fallback-TakenBack_example =
    fallback-TakenBack outage "alice" session "subscription.expired" (some "alice")
