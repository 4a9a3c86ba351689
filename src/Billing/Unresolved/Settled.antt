-- ===== src/Billing/Unresolved/Settled.antt =====
-- What attributing and dismissing of app/services/billing_service.py leave of the events.
use brainstorm_server.Common.{
  ◌≡◌, String, Bool, false, arith, some, opt_str_eq, is_none, present, ◌&&◌,
}
use brainstorm_server.Flash.{Datetime}
use brainstorm_server.Billing.Tables.{FlashWebhookEvent}
use brainstorm_server.Billing.Session.{Session, Result}
use brainstorm_server.Billing.Repos.Events.{ref_of, is_open_for, settled}
use brainstorm_server.Billing.Unresolved.{ResolutionOutcome, dismiss_unresolved_subscription}

-- An event that has been settled by hand is open for nobody.
pub settled-not_open :
    (id : String) (lax : Bool) (now : Datetime) (resolution by : String) (e : FlashWebhookEvent)
    → is_open_for id lax (settled now resolution by e) ≡ false
unfolding is_open_for settled
settled-not_open id lax now resolution by e = ground arith

module _ (now : Datetime) (id acting : String) (s : Session) where
  -- Of the subscription, not processed, and with no reference to anyone, or an empty one.
  abbrev pub open_signup : FlashWebhookEvent → Bool
  open_signup e =
      opt_str_eq e.subscription_id (some id)
      && (is_none e.processed_at && is_none (present (ref_of e.payload)))

  abbrev pub dismissed_run : Result ResolutionOutcome × Session
  dismissed_run = dismiss_unresolved_subscription now id acting s
