-- ===== src/Billing/Admin/Tests.antt =====
-- The operators' actions at a concrete database.
use brainstorm_server.Common.{◌≡◌, refl, ◌⊎◌, String, true, false, some, none, [], ◌∷◌}
use brainstorm_server.Flash.{answered}
use brainstorm_server.Billing.Session.{Session, raise, http_exception}
use brainstorm_server.Billing.Environment.{Environment}
use brainstorm_server.Billing.Repos.Subscriptions.{subscription_of, synced_row}
use brainstorm_server.Billing.Fixtures.{session, database, holding, subscription_for}
use brainstorm_server.Billing.Admin.Creation.{
  Created, creation, is_known, is_used, create_billing_plan_lem,
}
use brainstorm_server.Billing.Admin.Action.{
  NotWritten, Written, acted, held_id, act_on_subscription_lem,
}

-- A second plan, and what its own ids find.
create_billing_plan_lem_example :
    ((is_known "svc" "basic" 2 true session ≡ false)
      × (creation "svc" "basic" 2 true session ≡ (raise (http_exception 404), session)))
    ⊎ ((is_known "svc" "basic" 2 true session ≡ true)
        × (is_used "svc" "basic" 2 true session ≡ true)
        × (creation "svc" "basic" 2 true session ≡ (raise (http_exception 409), session)))
    ⊎ ((is_known "svc" "basic" 2 true session ≡ true)
        × (is_used "svc" "basic" 2 true session ≡ false)
        × Created "svc" "basic" 2 true session "svc" "basic")
create_billing_plan_lem_example = create_billing_plan_lem "svc" "basic" 2 true session "svc" "basic"

-- Flash resumes the subscription of alice, and reports it as active when read again.
abbrev resuming : Environment
resuming = record (holding "alice" "active") {
  set_status = λ n id status. answered (some (subscription_for "alice" "active"));
}

abbrev paused : Session
paused =
    let row = synced_row "alice" (subscription_for "alice" "paused") 1 none 5 none in
    let db = record database { subscriptions = row ∷ [] } in record session { db = db; saved = db }

act_on_subscription_lem_example :
    ((held_id (subscription_of paused.db "alice") ≡ none)
      × (acted resuming 50 "alice" (λ n id. resuming.set_status n id "active") paused
          ≡ (raise (http_exception 404), paused)))
    ⊎ ((id : String) × (held_id (subscription_of paused.db "alice") ≡ some id)
        × (NotWritten resuming 50 "alice" (λ n id. resuming.set_status n id "active") paused id
            ⊎ Written resuming 50 "alice" (λ n id. resuming.set_status n id "active") paused id))
act_on_subscription_lem_example =
    act_on_subscription_lem resuming 50 "alice" (λ n id. resuming.set_status n id "active") paused
      refl
