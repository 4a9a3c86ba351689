-- ===== src/Lib.antt =====
-- A verification library for the Brainstorm server, a FastAPI application that computes trust
-- scores per user on a schedule, and sells better schedules through Flash. It models billing, where
-- what Flash says of a subscription decides which scheduling policy a user holds, and the scheduler,
-- which admits users by the priority and the interval of that policy. It also models what the
-- Assistant of a user publishes of itself (its Duty Menu, and its own Treasure Map), the short links,
-- and the versions that revoke a session.
--
-- The parts and how they interact. Flash is asked over HTTP (app/core/flash.py) and pushes
-- webhooks. `apply_entitlement` (app/services/billing_service.py) is the one function that turns
-- an answer of Flash into a policy. The webhook path calls it after a delivery is recorded; the
-- periodic jobs (app/services/billing_sync_service.py) call it for events that were dropped and for
-- subscribers that no event has settled, and take back what lapsed; the operators' actions call it
-- after a write to Flash or a decision on a signup. All write through app/repos, into
-- `brainstorm_nsec`, `user_subscription`, `billing_plan` and `flash_webhook_event`.
--
-- Which file models which part:
--   Common, Table           tests, texts as lists of code points, sorting, lists, and SQL
--                           statements on tables that are lists of rows
--   Flash                   the types and statuses of app/core/flash.py
--   Flash/Client            the requests of app/core/flash.py, their retries and what answers mean
--   Flash/Parsing           the parsing of a subscription in app/core/flash.py, the choice of one
--                           among several, and the lookups and writes composed of these
--   Flash/Catalog           the plans and services of app/core/flash.py; Reads and Cache model
--                           app/core/flash_plan_cache.py
--   Billing/Tables          the rows of app/db_models/__init__.py
--   Billing/Session         a database session: the transaction's view, the committed data, the
--                           sequences, and a count of the requests to Flash; `commit` and
--                           `rollback` move one to the other, exceptions are a `Fault`
--   Billing/Environment     Flash's answers, by request number, and the rows that are locked
--   Billing/Repos           app/repos/brainstorm_nsec.py, scheduling_repo.py,
--                           user_subscription_repo.py, billing_plan_repo.py and
--                           flash_webhook_event_repo.py
--   Billing/Entitlement     decide_entitlement, resolve_entitlement
--   Billing/Apply           apply_entitlement, _grant_and_record
--   Billing/Fallback        apply_payload_fallback
--   Billing/Admin           set_billing_block, the plan mappings, _act_on_subscription
--   Billing/Unresolved      attribute_ and dismiss_unresolved_subscription
--   Billing/Views           app/services/subscription_view_service.py: the subscriber's view, and in
--                           Page the pricing page
--   Billing/Sync            revoke_lapsed_entitlements, reconcile_subscriptions,
--                           replay_unprocessed_events
--   Webhook/Delivery        the target, the event's name and the dedupe key of a delivery
--   Webhook/Header          parse_signature_header
--   Webhook/Verification    verify_delivery, accepted_webhook_secrets, validate_flash_config
--   Webhook/Recording       record_delivery, handle_delivery
--   Webhook/Processing      process_delivery, _apply_with_db_retries, _record_failure
--                           (all of app/services/flash_webhook_service.py)
--   Scheduler/Ranking       app/services/scheduler.py
--   Scheduler/Cycle         _run_cycle of app/cronjobs/scheduler.py
--   Scheduler/Routing       app/services/scheduler_lanes.py
--   Scheduler/Quota         app/services/manual_quota.py and publish_drift.py
--   Scheduler/Leader        app/services/leader_lock.py
--   SelfMap                 app/services/self_map_build.py: Keys, Probes, Duties, Offer, Listing
--                           (build_should_say), Lines (duty_lines, evaluate_self_map), Versions
--   ShortUrls               app/services/shorturl_service.py and app/repos/short_url_repo.py
--   Sessions                app/services/session_service.py, app/repos/session_version_repo.py
--   DutyMenu                app/services/duty_menu_build.py: Rows, Relays, Menu
--
-- Conventions. A datetime is a number of microseconds; a clock that the source reads is an argument,
-- one for each point in a loop where time may have passed. Flash may answer each request
-- differently: its answers are a function of the number of requests made so far. `held` says which
-- users' rows another transaction has locked; a statement that waits for a lock is taken to get it.
-- Loops are recursion on the list that they go through; the loop of attempts in Flash/Client counts
-- down the three retries of the source. Two are on fuel: the admission loop of the scheduler, which pops one candidate in each round and has their number as fuel, and the
-- printing of a number, which has its value plus one; the minting of a short code goes through the
-- five attempts of the source. Ids are natural numbers from a sequence that a rollback does not take
-- back. A text that the code takes apart is a list of code points, any other a string.
--
-- Not modelled: logging, metrics and the texts of HTTP errors, which decide nothing; failures of the
-- database inside a statement, but for the attempts that it breaks off in the webhook's processing;
-- HTTP and JSON themselves, of which a model takes what the code reads; Neo4j, whose answers are
-- arguments, and Redis, of which the plans cache, the leader lock and the session versions model
-- their own keys. Python's readers of dates and numbers, and its `urlsplit`, are parameters.
-- Flash/Parsing alone tells an OverflowError or a TypeError apart: in Billing each
-- lookup of Flash ends as a subscription or as one of the other answers of `Answer`, and a
-- delivery in Webhook has a time that Python holds, or none. A reference or a subscriber's id that is
-- no text is taken for none, and the database errors that end a request with HTTP 500 are left
-- out. In Sessions no request lasts longer than `slack`, a parameter. The other
-- parts of the server (calculation requests and their queues, the services that publish the Duty Menu
-- and the Map, tagging and trusted lists, support, accounts, graph and network services, publishing,
-- the billing reports) have no module yet.
pub mod Common
pub mod Table
pub mod Flash
pub mod Billing
pub mod Webhook
pub mod Scheduler
pub mod DutyMenu
pub mod SelfMap
pub mod ShortUrls
pub mod Sessions
