-- ===== src/Billing/Tables.antt =====
-- The rows that billing reads and writes, from app/db_models/__init__.py, and the database that
-- holds them. `brainstorm_nsec` and `scheduling` keep the columns that billing uses.
use brainstorm_server.Common.{ℕ, String, Bool, Option, List}
use brainstorm_server.Common.Int.{ℤ}
use brainstorm_server.Flash.{Datetime}

abbrev pub default_source : String
default_source = "default"

abbrev pub billing_source : String
billing_source = "billing"

abbrev pub admin_source : String
admin_source = "admin"

pub record BrainstormNsec : Type 0 where
  pub pubkey : String
  pub scheduling_id : Option ℕ
  pub scheduling_source : String
  pub billing_blocked : Bool

pub record Scheduling : Type 0 where
  pub id : ℕ
  pub name : String
  pub schedule_interval_seconds : ℕ
  pub priority : ℕ
  pub enabled : Bool
  pub is_default : Bool
  pub is_public : Bool

pub record BillingPlan : Type 0 where
  pub id : ℕ
  pub flash_service_id : String
  pub flash_plan_id : String
  pub scheduling_id : ℕ
  pub is_active : Bool

pub record UserSubscription : Type 0 where
  pub pubkey : String
  pub flash_subscription_id : String
  pub flash_subscriber_id : Option String
  pub billing_plan_id : ℕ
  pub granted_scheduling_id : Option ℕ
  pub flash_status : String
  pub current_period_start : Option Datetime
  pub current_period_end : Option Datetime
  pub next_billing_date : Option Datetime
  pub trial_end_date : Option Datetime
  pub cancel_effective_date : Option Datetime
  pub portal_url : Option String
  pub pricing_amount_minor : Option ℤ
  pub pricing_currency : Option String
  pub pricing_billing_interval : Option String
  pub last_event_at : Option Datetime
  pub last_synced_at : Option Datetime
  pub last_sync_error : Option String
  pub sync_error_since : Option Datetime

-- The `data` of a payload, as far as the code looks into it.
pub record EventData : Type 0 where
  pub external_ref : Option String
  pub subscription_id : Option String
  pub service_id : Option String
  pub plan_id : Option String

pub record FlashWebhookEvent : Type 0 where
  pub id : ℕ
  pub event : String
  pub event_timestamp : Option Datetime
  pub delivery_timestamp : ℕ
  pub subscription_id : Option String
  pub payload : Option EventData
  pub processing_started_at : Option Datetime
  pub processed_at : Option Datetime
  pub attempts : ℕ
  pub process_error : Option String
  pub resolved_by : Option String
  pub resolution : Option String
  pub dedupe_key : String

pub record Db : Type 0 where
  pub nsecs : List BrainstormNsec
  pub schedulings : List Scheduling
  pub plans : List BillingPlan
  pub subscriptions : List UserSubscription
  pub events : List FlashWebhookEvent
