-- ===== src/Flash/Parsing/Lookup/Escapes.antt =====
-- The exception that escapes `_subscription_from` of app/core/flash.py.
use brainstorm_server.Common.{
  ◌≡◌, refl, ◌∙◌, sym, ◌↔◌, ◌⊎◌, suc, ◌+◌, ◌≤◌, ◌<◌, inl, inr, Bool, true, false, ◌||◌, Option,
  none, some, arith, Option-cases,
}
use brainstorm_server.Common.Int.{ℤ, pos, negsuc}
use brainstorm_server.Flash.{Datetime, FlashSubscription}
use brainstorm_server.Flash.Parsing.{
  Json, Stamp, null, boolean, whole, real, text, array, object, Fields, Library, Read, read,
  overflow_error, type_error, ◌>>=◌, get, parse_flash_timestamp, parse_subscription, to_utc,
  naive_utc, minus_offset,
}
use brainstorm_server.Flash.Parsing.Lookup.{
  Outcome, overflow_escaped, subscription_read, is_hashable, cancellation_mode_of, read_row,
}

abbrev pub overflows {ℓ} : {A : Type ℓ} → Read A → Bool
overflows overflow_error = true
overflows _ = false

abbrev is_type_error {ℓ} : {A : Type ℓ} → Read A → Bool
is_type_error type_error = true
is_type_error _ = false

abbrev pub escapes : Outcome → Bool
escapes overflow_escaped = true
escapes _ = false

bind-overflows {ℓ κ} :
    {A : Type ℓ} {B : Type κ} (m : Read A) (f : A → Read B) (later : Bool)
    → is_type_error m ≡ false
    → ((a : A) → overflows (f a) ≡ later)
    → overflows (m >>= f) ≡ overflows m || later
bind-overflows (read a) f later h k = k a
bind-overflows overflow_error f later h k = refl
bind-overflows type_error f later h k = absurd (ground (arith, h))

subscription_read-escapes :
    (r : Read FlashSubscription) → escapes (subscription_read r) ≡ overflows r
subscription_read-escapes (read s) = refl
subscription_read-escapes overflow_error = refl
subscription_read-escapes type_error = refl

to_utc-raises : (s : Stamp) → is_type_error (to_utc s) ≡ false
to_utc-raises s = elim (Option-cases s.offset) [
  | inl e ↦ rw e refl
  | inr (pos o, e) ↦ rw e (ground arith)
  | inr (negsuc o, e) ↦ rw e (ground arith)
]

bind-raises {ℓ κ} :
    {A : Type ℓ} {B : Type κ} (m : Read A) (f : A → B)
    → is_type_error m ≡ false
    → is_type_error (m >>= λ a. read (f a)) ≡ false
bind-raises (read a) f h = refl
bind-raises overflow_error f h = refl
bind-raises type_error f h = h

module _ (lib : Library) where
  naive_utc-raises :
      (whole_day : Bool) (s : Option Stamp) → is_type_error (naive_utc lib whole_day s) ≡ false
  naive_utc-raises whole_day none = refl
  naive_utc-raises whole_day (some s) = bind-raises (to_utc s) _ (to_utc-raises s)

  parse-raises :
      (v : Json) (deadline : Bool) → is_type_error (parse_flash_timestamp lib v deadline) ≡ false
  unfolding parse_flash_timestamp
  parse-raises (text raw) deadline = naive_utc-raises _ (lib.datetime_of raw)
  parse-raises null deadline = refl
  parse-raises (boolean b) deadline = refl
  parse-raises (whole n) deadline = refl
  parse-raises (real t b) deadline = refl
  parse-raises (array vs) deadline = refl
  parse-raises (object fs) deadline = refl

  -- The moment that a field gives is one that Python has no datetime for.
  abbrev is_beyond : Json → Bool → Bool
  is_beyond v deadline = overflows (parse_flash_timestamp lib v deadline)

  abbrev any_beyond : Fields → Bool
  any_beyond raw =
      is_beyond (get "currentPeriodStart" raw) false
      || (is_beyond (get "currentPeriodEnd" raw) true
          || (is_beyond (get "nextBillingDate" raw) false
              || (is_beyond (get "trialEndDate" raw) true
                  || (is_beyond (get "cancelEffectiveDate" raw) true || false))))

  parse_subscription-overflows :
      (raw : Fields) → overflows (parse_subscription lib raw) ≡ any_beyond raw
  unfolding parse_subscription
  parse_subscription-overflows raw =
      bind-overflows _ _ _ (parse-raises (get "currentPeriodStart" raw) false) λ a.
        bind-overflows _ _ _ (parse-raises (get "currentPeriodEnd" raw) true) λ b.
          bind-overflows _ _ _ (parse-raises (get "nextBillingDate" raw) false) λ c.
            bind-overflows _ _ _ (parse-raises (get "trialEndDate" raw) true) λ d.
              bind-overflows _ _ _ (parse-raises (get "cancelEffectiveDate" raw) true) λ e. refl

  -- The moment that a text gives, taken to UTC by its offset, is before `datetime.min`, or past
  -- `datetime.max`: times count the microseconds since the first day.
  abbrev OffsetBeyond : Datetime → Option ℤ → Type 0
  OffsetBeyond t none = ⊥
  OffsetBeyond t (some (pos o)) = t < o
  OffsetBeyond t (some (negsuc o)) = 315_537_897_600_000_000 ≤ t + suc o

  abbrev StampBeyond : Option Stamp → Type 0
  StampBeyond none = ⊥
  StampBeyond (some s) = OffsetBeyond s.local s.offset

  abbrev pub IsBeyond : Json → Type 0
  IsBeyond (text raw) = StampBeyond (lib.datetime_of raw)
  IsBeyond _ = ⊥

  abbrev pub AnyBeyond : Fields → Type 0
  AnyBeyond raw =
      IsBeyond (get "currentPeriodStart" raw)
      ⊎ (IsBeyond (get "currentPeriodEnd" raw)
          ⊎ (IsBeyond (get "nextBillingDate" raw)
              ⊎ (IsBeyond (get "trialEndDate" raw) ⊎ IsBeyond (get "cancelEffectiveDate" raw))))

  minus_offset-beyond :
      (t : Datetime) (o : ℤ) → (overflows (minus_offset t o) ≡ true) ↔ OffsetBeyond t (some o)
  minus_offset-beyond t (pos o) = ground arith
  minus_offset-beyond t (negsuc o) = ground arith

  to_utc-beyond :
      (local : Datetime) (offset : Option ℤ)
      → (overflows (to_utc (record { local = local; offset = offset })) ≡ true)
        ↔ OffsetBeyond local offset
  to_utc-beyond local none = (λ h. absurd (ground (arith, h)), λ h. absurd h)
  to_utc-beyond local (some o) = minus_offset-beyond local o

  bind-overflows_same {ℓ κ} :
      {A : Type ℓ} {B : Type κ} (m : Read A) (f : A → B)
      → overflows (m >>= λ a. read (f a)) ≡ overflows m
  bind-overflows_same (read a) f = refl
  bind-overflows_same overflow_error f = refl
  bind-overflows_same type_error f = refl

  naive_utc-beyond :
      (whole_day : Bool) (s : Option Stamp)
      → (overflows (naive_utc lib whole_day s) ≡ true) ↔ StampBeyond s
  naive_utc-beyond whole_day none = (λ h. absurd (ground (arith, h)), λ h. absurd h)
  naive_utc-beyond whole_day (some s) =
      let same : overflows (naive_utc lib whole_day (some s)) ≡ overflows (to_utc s) =
        bind-overflows_same (to_utc s) _ in
      let beyond = to_utc-beyond s.local s.offset in
      (λ h. beyond.0 (sym same ∙ h), λ h. same ∙ beyond.1 h)

  parse-IsBeyond : (v : Json) (deadline : Bool) → (is_beyond v deadline ≡ true) ↔ IsBeyond v
  unfolding parse_flash_timestamp
  parse-IsBeyond (text raw) deadline = naive_utc-beyond _ (lib.datetime_of raw)
  parse-IsBeyond null deadline = (λ h. absurd (ground (arith, h)), λ h. absurd h)
  parse-IsBeyond (boolean b) deadline = (λ h. absurd (ground (arith, h)), λ h. absurd h)
  parse-IsBeyond (whole n) deadline = (λ h. absurd (ground (arith, h)), λ h. absurd h)
  parse-IsBeyond (real t b) deadline = (λ h. absurd (ground (arith, h)), λ h. absurd h)
  parse-IsBeyond (array vs) deadline = (λ h. absurd (ground (arith, h)), λ h. absurd h)
  parse-IsBeyond (object fs) deadline = (λ h. absurd (ground (arith, h)), λ h. absurd h)

  or_iff :
      (b c : Bool) (P Q : Type 0) → (b ≡ true) ↔ P → (c ≡ true) ↔ Q → ((b || c) ≡ true) ↔ (P ⊎ Q)
  or_iff true c P Q h k = (λ e. inl (h.0 refl), λ e. refl)
  or_iff false c P Q h k = (λ e. inr (k.0 e), back)
    where
      back : P ⊎ Q → c ≡ true
      back (inl p) = absurd (ground (arith, h.1 p))
      back (inr q) = k.1 q

  any_beyond-AnyBeyond : (raw : Fields) → (any_beyond raw ≡ true) ↔ AnyBeyond raw
  any_beyond-AnyBeyond raw = or_iff _ _ _ _ (parse-IsBeyond (get "currentPeriodStart" raw) false) (
      or_iff _ _ _ _ (parse-IsBeyond (get "currentPeriodEnd" raw) true) (
        or_iff _ _ _ _ (parse-IsBeyond (get "nextBillingDate" raw) false)
          (or_iff _ _ _ _ (parse-IsBeyond (get "trialEndDate" raw) true) last_one)))
    where
      last_one :
          ((is_beyond (get "cancelEffectiveDate" raw) true || false) ≡ true)
          ↔ IsBeyond (get "cancelEffectiveDate" raw)
      last_one =
          let own = parse-IsBeyond (get "cancelEffectiveDate" raw) true in
          (λ h. own.0 (ground (arith, h)), λ h. ground (arith, own.1 h))

  -- Reading a subscription whose cancellation mode is no list and no dict ends in an `OverflowError` that
  -- nothing catches exactly where one of its five moments is a text that Python reads as a time with an
  -- offset, and the time less the offset is before the first microsecond of the year 1 or past the last of the
  -- year 9999.
  pub read_row-escapes :
      (raw : Fields)
      → is_hashable (cancellation_mode_of lib raw) ≡ true
      → (escapes (read_row lib raw) ≡ true) ↔ AnyBeyond raw
  read_row-escapes raw h =
      let same : escapes (read_row lib raw) ≡ any_beyond raw = rw h (
        subscription_read-escapes (parse_subscription lib raw)
        ∙ parse_subscription-overflows raw) in
      let beyond = any_beyond-AnyBeyond raw in
      (λ e. beyond.0 (sym same ∙ e), λ b. same ∙ beyond.1 b)
