-- ===== src/Webhook/Verification.antt =====
-- `verify_delivery` of app/services/flash_webhook_service.py and the settings it needs. `mac` is the
-- hexadecimal HMAC-SHA-256 of a message under a key, in bytes; `encode` is UTF-8.
pub mod Soundness
use brainstorm_server.Common.{
  ℕ, zero, suc, ◌+◌, ◌-◌, ◌/◌, ◌%◌, String, Bool, true, false, not, ◌&&◌, ◌||◌, Option, none, some,
  List, [], ◌∷◌, ◌++◌, leb, ltb, str_eq, if◌then◌else◌,
}
use brainstorm_server.Common.Int.{ℤ, pos, negsuc}
use brainstorm_server.Webhook.Header.{Text, same_text, SignatureParts, parse_signature_header}

-- `abs(now - timestamp) <= tolerance_seconds`.
unfoldable pub is_timestamp_fresh : ℤ → ℕ → ℕ → Bool
is_timestamp_fresh (pos t) now tolerance = leb ((now - t) + (t - now)) tolerance
is_timestamp_fresh (negsuc t) now tolerance = leb (now + suc t) tolerance

-- `str(n)`. A number has no more digits than its value plus one.
unfoldable pub decimal : ℕ → ℕ → Text
decimal zero n = []
decimal (suc fuel) n =
    let front = decimal fuel (n / 10) in
    if ltb n 10 then (48 + n) ∷ [] else front ++ (48 + n % 10) ∷ []

abbrev pub text_of : ℤ → Text
text_of (pos n) = decimal (suc n) n
text_of (negsuc n) = 45 ∷ decimal (suc (suc n)) (suc n)

module _ (mac : Text → Text → Text) (encode : Text → Text) where
  -- The MAC of "{timestamp}.{raw body}".
  unfoldable pub compute_signature : Text → ℤ → Text → Text
  compute_signature secret timestamp raw_body =
      mac (encode secret) (text_of timestamp ++ 46 ∷ raw_body)

  unfoldable pub signature_matches : Text → ℤ → Text → Text → Bool
  signature_matches secret timestamp raw_body provided =
      same_text (compute_signature secret timestamp raw_body) (encode provided)

  unfoldable pub any_matches : List Text → SignatureParts → Text → Bool
  any_matches [] parts raw_body = false
  any_matches (secret ∷ secrets) parts raw_body =
      let others = any_matches secrets parts raw_body in
      signature_matches secret parts.timestamp raw_body parts.signature || others

  -- The parts of an accepted header, or the reason and the status of the FlashSignatureError.
  pub data Verdict : Type 0 where
    accepted : SignatureParts → Verdict
    rejected : String → ℕ → Verdict

  abbrev pub verify_parts : List Text → ℕ → ℕ → Text → Option SignatureParts → Verdict
  verify_parts secrets now tolerance raw_body none = rejected "malformed_signature_header" 400
  verify_parts secrets now tolerance raw_body (some parts) =
      if not (is_timestamp_fresh parts.timestamp now tolerance)
      then rejected "stale_timestamp" 400
      else if any_matches secrets parts raw_body
      then accepted parts
      else rejected "invalid_signature" 401

  unfoldable pub verify_delivery : Option Text → Text → List Text → ℕ → ℕ → Verdict
  verify_delivery header raw_body secrets now tolerance =
      verify_parts secrets now tolerance raw_body (parse_signature_header header)

abbrev pub unless_empty : Text → List Text → List Text
unless_empty [] rest = rest
unless_empty (c ∷ cs) rest = (c ∷ cs) ∷ rest

-- The secrets in force, newest first: the second only while they are rotated.
unfoldable pub accepted_webhook_secrets : Text → Text → List Text
accepted_webhook_secrets current previous = unless_empty current (unless_empty previous [])

pub data ConfigError : Type 0 where
  mock_outside_local : String → ConfigError
  settings_missing : List String → ConfigError

abbrev missing_if : String → String → List String → List String
missing_if name value rest = if str_eq value "" then name ∷ rest else rest

abbrev refuse_missing : List String → Option ConfigError
refuse_missing [] = none
refuse_missing (name ∷ names) = some (settings_missing (name ∷ names))

-- `none` where the server may start.
unfoldable pub validate_flash_config :
    Bool → String → String → String → Bool → String → Option ConfigError
validate_flash_config is_enabled api_key webhook_secret base_url mock_enabled deploy_environment =
    if not is_enabled
    then none
    else if mock_enabled && not (str_eq deploy_environment "LOCAL")
    then some (mock_outside_local deploy_environment)
    else refuse_missing (
        missing_if "flash_api_key" api_key (
          missing_if "flash_webhook_secret" webhook_secret
            (missing_if "flash_base_url" base_url [])))
