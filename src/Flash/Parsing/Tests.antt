-- ===== src/Flash/Parsing/Tests.antt =====
-- A lookup, from httpx's responses to a subscription, at concrete inputs.
use brainstorm_server.Common.{
  ℕ, ◌↔◌, inl, inr, arith, ◌≡◌, refl, String, true, false, Option, none, some, str_eq,
  if◌then◌else◌,
}
use brainstorm_server.Common.Int.{pos, negsuc}
use brainstorm_server.Flash.{FlashSubscription}
use brainstorm_server.Flash.Client.{Attempt, responded, read_body, attempts_from}
use brainstorm_server.Flash.Parsing.{
  text, array, object, Items, nil, item, Fields, end, field, Library, Stamp, get, last_datetime,
  parse_flash_timestamp, text_of, whole_number, flag, minor_units, str_or_empty, text_as_sent,
  get_in, parse_lifecycle_policy, parse_pricing, parse_subscription,
}
use brainstorm_server.Flash.Parsing.Choice.{
  rows_of, entitling_rows, live_rows, runs_until, longest_from, longest, choose_subscription,
}
use brainstorm_server.Flash.Parsing.Lookup.{read_row, fetch_subscription_with}
use brainstorm_server.Flash.Parsing.Lookup.Meaning.{
  AnsweredWith, FromRows, fetch_subscription-by_ref,
}
use brainstorm_server.Flash.Parsing.Lookup.Escapes.{escapes, AnyBeyond, read_row-escapes}

-- Readers that know two moments: one at noon of the first day, and one in the last hour that a
-- datetime can hold, an hour behind UTC.
abbrev stamp_of : String → Option Stamp
stamp_of s =
    if str_eq s "9999-12-31T23:59:59-01:00"
    then some (record { local = last_datetime; offset = some (negsuc 3_599_999_999) })
    else if str_eq s "0001-01-01T12:00:00Z"
    then some (record { local = 43_200_000_000; offset = some (pos 0) })
    else none

abbrev readers : Library
readers = record {
  strip = λ s. s;
  str_of = λ v. "";
  int_of = λ s. none;
  datetime_of = stamp_of;
  is_date = λ s. false;
}

abbrev expired_row : Fields
expired_row = field "status" (text "expired") (field "id" (text "old") end)

abbrev active_row : Fields
active_row =
    field "status" (text "active")
      (field "id" (text "new") (field "currentPeriodEnd" (text "0001-01-01T12:00:00Z") end))

abbrev both : Items
both = item (object expired_row) (item (text "no row") (item (object active_row) nil))

abbrev active : FlashSubscription
active = record {
  id = "new";
  status = "active";
  ref = none;
  subscriber_id = none;
  service_id = "";
  plan_id = "";
  current_period_start = none;
  current_period_end = some 43_200_000_000;
  next_billing_date = none;
  trial_end_date = none;
  cancel_effective_date = none;
  portal_url = none;
  pricing = none;
  policy = record {
    cancellation_mode = none;
    dunning_max_attempts = none;
    dunning_attempts = none;
    dunning_cancels_after_final_failure = none;
  };
}

abbrev body : Fields
body = field "subscriptions" (array both) (field "subscription" (object active_row) end)

abbrev answering : Option String → ℕ → Attempt Fields
answering handle n = responded (record { status_code = 200; json = some body })

fetch_subscription-by_ref_example :
    (b : Fields) × AnsweredWith (answering (some "user")) b
    × FromRows readers (get "subscriptions" b) (some active)
unfolding get parse_flash_timestamp rows_of entitling_rows live_rows runs_until longest_from longest
    choose_subscription text_of whole_number flag minor_units str_or_empty text_as_sent get_in
    parse_lifecycle_policy parse_pricing parse_subscription fetch_subscription_with read_body
    attempts_from
fetch_subscription-by_ref_example =
    fetch_subscription-by_ref readers answering answering none (some "user") (some active) refl refl

abbrev last_hour : Fields
last_hour = field "currentPeriodEnd" (text "9999-12-31T23:59:59-01:00") active_row

read_row-escapes_example :
    (escapes (read_row readers last_hour) ≡ true) ↔ AnyBeyond readers last_hour
unfolding get get_in
read_row-escapes_example = read_row-escapes readers last_hour refl

-- It does escape.
last_hour_escapes : AnyBeyond readers last_hour
unfolding get
last_hour_escapes = inr (inl (omega arith))
