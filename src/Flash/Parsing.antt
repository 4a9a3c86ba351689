-- ===== src/Flash/Parsing.antt =====
-- The reading of Flash's JSON in app/core/flash.py. What Python's own readers of texts give is a
-- parameter, `Library`. A moment in UTC that Python has no datetime for is an `OverflowError`, and a
-- list or dict that is looked up in a set a `TypeError`.
pub mod Choice
pub mod Lookup
mod Tests
use brainstorm_server.Common.{
  ℕ, zero, suc, ◌+◌, ◌-◌, ◌*◌, ◌%◌, String, Bool, true, false, not, ◌&&◌, ◌||◌, Option, none, some,
  str_eq, leb, ltb, ◌==◌, if◌then◌else◌, List, [], ◌∷◌,
}
use brainstorm_server.Common.Int.{ℤ, pos, negsuc}
use brainstorm_server.Flash.{Datetime, FlashPricing, FlashLifecyclePolicy, FlashSubscription}

-- A value that `json.loads` gives. A float has its text, and whether it is not zero.
mutual
  pub data Json : Type 0 where
    null : Json
    boolean : Bool → Json
    whole : ℤ → Json
    real : String → Bool → Json
    text : String → Json
    array : Items → Json
    object : Fields → Json

  pub data Items : Type 0 where
    nil : Items
    item : Json → Items → Items

  pub data Fields : Type 0 where
    end : Fields
    field : String → Json → Fields → Fields

-- What `datetime.fromisoformat` reads: the time as written, and its offset from UTC, if any.
pub record Stamp : Type 0 where
  pub local : Datetime
  pub offset : Option ℤ

pub record Library : Type 0 where
  -- `str.strip`.
  pub strip : String → String
  -- `str` of a value that is no text.
  pub str_of : Json → String
  -- `int` of a text, `none` for its `ValueError`.
  pub int_of : String → Option ℤ
  -- `datetime.fromisoformat` of the text with `Z` written `+00:00`, `none` for its `ValueError`.
  pub datetime_of : String → Option Stamp
  -- `date.fromisoformat` raises nothing.
  pub is_date : String → Bool

pub data Read {ℓ} (A : Type ℓ) : Type ℓ where
  read : A → Read A
  overflow_error : Read A
  type_error : Read A

infixl 5 ◌>>=◌
abbrev pub ◌>>=◌ {ℓ κ} : {A : Type ℓ} {B : Type κ} → Read A → (A → Read B) → Read B
read a >>= f = f a
overflow_error >>= f = overflow_error
type_error >>= f = type_error

-- `raw.get(key)` of a dict, whose keys are distinct.
unfoldable pub get : String → Fields → Json
get key end = null
get key (field k v fs) = let rest = get key fs in if str_eq k key then v else rest

abbrev pub day : ℕ
day = 86_400_000_000

-- `datetime.max`.
abbrev pub last_datetime : Datetime
last_datetime = 3_652_059 * day - 1

abbrev in_range : ℕ → Read Datetime
in_range t = if leb t last_datetime then read t else overflow_error

-- `astimezone(timezone.utc)`.
abbrev minus_offset : Datetime → ℤ → Read Datetime
minus_offset t (pos o) = if ltb t o then overflow_error else read (t - o)
minus_offset t (negsuc o) = in_range (t + suc o)

abbrev to_utc : Stamp → Read Datetime
to_utc s = elim s.offset [ none ↦ read s.local | some o ↦ minus_offset s.local o ]

-- The last microsecond of the day.
abbrev pub end_of_day : Datetime → Datetime
end_of_day t = t - t % day + (day - 1)

module _ (lib : Library) where
  abbrev naive_utc : Bool → Option Stamp → Read (Option Datetime)
  naive_utc whole_day none = read none
  naive_utc whole_day (some s) =
      to_utc s >>= λ t. read (some (if whole_day then end_of_day t else t))

  unfoldable pub parse_flash_timestamp : Json → Bool → Read (Option Datetime)
  parse_flash_timestamp (text raw) deadline =
      naive_utc (deadline && lib.is_date raw) (lib.datetime_of raw)
  parse_flash_timestamp _ deadline = read none

  abbrev not_empty : String → Option String
  not_empty s = if str_eq s "" then none else some s

  -- `_text`
  unfoldable pub text_of : Json → Option String
  text_of (text s) = not_empty (lib.strip s)
  text_of _ = none

  -- `_whole_number`
  unfoldable pub whole_number : Json → Option ℤ
  whole_number (whole n) = some n
  whole_number _ = none

  -- `_flag`
  unfoldable pub flag : Json → Option Bool
  flag (boolean b) = some b
  flag _ = none

  abbrev str : Json → String
  str (text s) = s
  str v = lib.str_of v

  -- `_minor_units`
  unfoldable pub minor_units : Json → Option ℤ
  minor_units v = lib.int_of (str v)

  abbrev is_truthy : Json → Bool
  is_truthy null = false
  is_truthy (boolean b) = b
  is_truthy (whole (pos zero)) = false
  is_truthy (whole n) = true
  is_truthy (real s nonzero) = nonzero
  is_truthy (text s) = not (str_eq s "")
  is_truthy (array nil) = false
  is_truthy (array (item v vs)) = true
  is_truthy (object end) = false
  is_truthy (object (field k v fs)) = true

  -- `str(value or "")`
  unfoldable pub str_or_empty : Json → String
  str_or_empty v = if is_truthy v then str v else ""

  -- A reference or a subscriber's id, which Flash sends as a text or as null.
  unfoldable pub text_as_sent : Json → Option String
  text_as_sent (text s) = some s
  text_as_sent _ = none

  -- `value.get(key) if isinstance(value, dict) else None`
  unfoldable pub get_in : String → Json → Json
  get_in key (object fs) = get key fs
  get_in key _ = null

  unfoldable pub parse_lifecycle_policy : Fields → FlashLifecyclePolicy
  parse_lifecycle_policy raw = record {
    cancellation_mode = text_of (get_in "mode" (get "cancellationPolicy" raw));
    dunning_max_attempts = whole_number (get_in "maxAttempts" (get "dunningPolicy" raw));
    dunning_attempts = whole_number (get "dunningAttempts" raw);
    dunning_cancels_after_final_failure =
        flag (get_in "cancelAfterFinalFailure" (get "dunningPolicy" raw));
  }

  unfoldable pub parse_pricing : Json → Option FlashPricing
  parse_pricing (object raw) = some (record {
    amount_minor = minor_units (get "amount" raw);
    currency = text_of (get "currency" raw);
    billing_interval = text_of (get "billingInterval" raw);
  })
  parse_pricing _ = none

  unfoldable pub parse_subscription : Fields → Read FlashSubscription
  parse_subscription raw = do
    current_period_start ← parse_flash_timestamp (get "currentPeriodStart" raw) false
    current_period_end ← parse_flash_timestamp (get "currentPeriodEnd" raw) true
    next_billing_date ← parse_flash_timestamp (get "nextBillingDate" raw) false
    trial_end_date ← parse_flash_timestamp (get "trialEndDate" raw) true
    cancel_effective_date ← parse_flash_timestamp (get "cancelEffectiveDate" raw) true
    read (record {
      id = str_or_empty (get "id" raw);
      status = str_or_empty (get "status" raw);
      ref = text_as_sent (get "ref" raw);
      subscriber_id = text_as_sent (get "subscriberId" raw);
      service_id = str_or_empty (get "serviceId" raw);
      plan_id = str_or_empty (get "planId" raw);
      current_period_start = current_period_start;
      current_period_end = current_period_end;
      next_billing_date = next_billing_date;
      trial_end_date = trial_end_date;
      cancel_effective_date = cancel_effective_date;
      portal_url = text_of (get "portalUrl" raw);
      pricing = parse_pricing (get "pricingSnapshot" raw);
      policy = parse_lifecycle_policy raw;
    })
