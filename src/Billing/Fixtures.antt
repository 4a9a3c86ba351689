-- ===== src/Billing/Fixtures.antt =====
-- A small database and a Flash that answers from it, for the tests of the billing modules.
use brainstorm_server.Common.{String, true, false, none, some, [], ◌∷◌}
use brainstorm_server.Flash.{FlashSubscription, answered, unavailable, unknown_lifecycle_policy}
use brainstorm_server.Billing.Tables.{
  BrainstormNsec, Scheduling, BillingPlan, Db, default_source, admin_source,
}
use brainstorm_server.Billing.Session.{Session}
use brainstorm_server.Billing.Environment.{Environment}

abbrev pub alice : BrainstormNsec
alice = record {
  pubkey = "alice";
  scheduling_id = none;
  scheduling_source = default_source;
  billing_blocked = false;
}

abbrev pub bob : BrainstormNsec
bob = record {
  pubkey = "bob";
  scheduling_id = some 3;
  scheduling_source = admin_source;
  billing_blocked = false;
}

abbrev pub pro : BillingPlan
pro = record {
  id = 1;
  flash_service_id = "svc";
  flash_plan_id = "pro";
  scheduling_id = 2;
  is_active = true;
}

abbrev pub daily : Scheduling
daily = record {
  id = 2;
  name = "daily";
  schedule_interval_seconds = 86400;
  priority = 1;
  enabled = true;
  is_default = false;
  is_public = true;
}

abbrev pub database : Db
database = record {
  nsecs = alice ∷ bob ∷ [];
  schedulings = daily ∷ [];
  plans = pro ∷ [];
  subscriptions = [];
  events = [];
}

abbrev pub session : Session
session = record { db = database; saved = database; asked = 0; event_seq = 1; plan_seq = 2 }

abbrev pub subscription_for : String → String → FlashSubscription
subscription_for ref status = record {
  id = "sub_1";
  status = status;
  ref = some ref;
  subscriber_id = none;
  service_id = "svc";
  plan_id = "pro";
  current_period_start = some 0;
  current_period_end = some 100;
  next_billing_date = none;
  trial_end_date = none;
  cancel_effective_date = none;
  portal_url = none;
  pricing = none;
  policy = unknown_lifecycle_policy;
}

-- Flash holds one subscription, whatever it is asked by.
abbrev pub holding : String → String → Environment
holding ref status = record {
  fetch = λ n id r. answered (some (subscription_for ref status));
  cancel = λ n id reason. answered none;
  set_status = λ n id status. answered none;
  held = λ pubkey. false;
}

abbrev pub outage : Environment
outage = record {
  fetch = λ n id r. unavailable "Flash answered 503";
  cancel = λ n id reason. unavailable "Flash answered 503";
  set_status = λ n id status. unavailable "Flash answered 503";
  held = λ pubkey. false;
}
