-- ===== src/Flash/Parsing/Lookup.antt =====
-- The lookups and writes of app/core/flash.py, from httpx's responses to a subscription: `_read_for`,
-- `_subscription_from`, `fetch_subscription`, `cancel_subscription`, `set_subscription_status`. The
-- server's own stand-in for Flash is off.
pub mod Meaning
pub mod Escapes
use brainstorm_server.Common.{
  ℕ, String, Bool, true, false, str_eq, is_in, Option, none, some, List, [], ◌∷◌, if◌then◌else◌,
}
use brainstorm_server.Flash.{FlashSubscription}
use brainstorm_server.Flash.Client.{
  Attempt, Body, found, absent, credential_error, declined, unavailable, read_body, write_body,
}
use brainstorm_server.Flash.Parsing.{
  Json, null, boolean, whole, real, text, array, object, Items, nil, item, Fields, Library, Read,
  read, overflow_error, type_error, get, get_in, parse_subscription,
}
use brainstorm_server.Flash.Parsing.Choice.{choose_subscription}

-- How a call ends: an answer or `None`, one of the exceptions that the module names, or an exception
-- that no `except` catches.
pub data Outcome : Type 0 where
  returned : Option FlashSubscription → Outcome
  flash_unavailable : Outcome
  flash_credential_error : Outcome
  flash_refused : ℕ → Outcome
  overflow_escaped : Outcome
  type_escaped : Outcome

abbrev pub subscription_read : Read FlashSubscription → Outcome
subscription_read (read s) = returned (some s)
subscription_read overflow_error = overflow_escaped
subscription_read type_error = flash_unavailable

-- `mode not in RECOGNISED_CANCELLATION_MODES` can be asked of the value.
abbrev pub is_hashable : Json → Bool
is_hashable (array vs) = false
is_hashable (object fs) = false
is_hashable _ = true

-- What a body holds, once its failures are raised.
abbrev pub on_body : (Fields → Outcome) → Body Fields → Outcome
on_body continue (found body) = continue body
on_body continue absent = returned none
on_body continue credential_error = flash_credential_error
on_body continue (declined n) = flash_refused n
on_body continue unavailable = flash_unavailable

-- A handle that is not empty.
abbrev pub is_given : Option String → Bool
is_given none = false
is_given (some s) = if str_eq s "" then false else true

abbrev settable_statuses : List String
settable_statuses = "paused" ∷ "active" ∷ []

module _ (lib : Library) where
  abbrev pub cancellation_mode_of : Fields → Json
  cancellation_mode_of raw = get_in lib "mode" (get "cancellationPolicy" raw)

  -- `_report_policy_differences`, which only reports, but for its `TypeError`, and then
  -- `parse_subscription`.
  abbrev pub read_row : Fields → Outcome
  read_row raw =
      if is_hashable (cancellation_mode_of raw)
      then subscription_read (parse_subscription lib raw)
      else flash_unavailable

  abbrev pub subscription_from : Json → Outcome
  subscription_from null = returned none
  subscription_from (object raw) = read_row raw
  subscription_from _ = flash_unavailable

  abbrev pub from_chosen : Read (Option Fields) → Outcome
  from_chosen (read none) = returned none
  from_chosen (read (some row)) = read_row row
  from_chosen overflow_error = overflow_escaped
  from_chosen type_error = type_escaped

  -- The rows under one reference. A list with nothing in it is absence.
  abbrev pub from_list : Json → Outcome
  from_list (array nil) = returned none
  from_list (array (item v vs)) = from_chosen (choose_subscription lib (item v vs))
  from_list _ = returned none

  abbrev pub one_subscription : Fields → Outcome
  one_subscription body = subscription_from (get "subscription" body)

  abbrev pub by_ref_body : Fields → Outcome
  by_ref_body body = from_list (get "subscriptions" body)

  -- What httpx does with each attempt at the path of an id, or at the list of a reference.
  module _ (request_id request_ref : Option String → ℕ → Attempt Fields) where
    unfoldable pub fetch_subscription_with : Option String → Option String → Outcome
    fetch_subscription_with subscription_id ref =
        if is_given subscription_id
        then on_body one_subscription (read_body (request_id subscription_id) true).0
        else if is_given ref
        then on_body by_ref_body (read_body (request_ref ref) false).0
        else flash_unavailable

  module _ (request : ℕ → Attempt Fields) where
    unfoldable pub cancel_subscription_with : String → Outcome
    cancel_subscription_with subscription_id =
        if str_eq subscription_id ""
        then flash_unavailable
        else on_body one_subscription (write_body request).0

    unfoldable pub set_subscription_status_with : String → String → Outcome
    set_subscription_status_with subscription_id status =
        if str_eq subscription_id ""
        then flash_unavailable
        else if is_in status settable_statuses
        then on_body one_subscription (write_body request).0
        else flash_unavailable
