-- ===== src/Flash/Client/Tests.antt =====
-- The requests to Flash at concrete attempts.
use brainstorm_server.Common.{ℕ, zero, suc, ◌≤◌, refl, String, Bool, true, false, some}
use brainstorm_server.Table.Where.{count}
use brainstorm_server.Flash.Client.{
  HttpFault, connect_timeout, connect_error, pool_timeout, Response, Attempt, responded, raised,
  write_body,
}
use brainstorm_server.Flash.Client.Requests.{attempts, may_reach, write_body-sends_once}

abbrev status_only : ℕ → Response String
status_only n = record { status_code = n; json = some "{}" }

-- Flash cannot be connected to, then answers 503, and then as given.
abbrev recovering : ℕ → ℕ → Attempt String
recovering n zero = raised connect_error
recovering n (suc zero) = responded (status_only 503)
recovering n (suc (suc k)) = responded (status_only n)

-- httpx says of a failure to connect that nothing was sent, and of no other.
abbrev leaves : HttpFault → Bool
leaves connect_timeout = false
leaves connect_error = false
leaves pool_timeout = false
leaves _ = true

write_body-sends_once_example :
    (1 ≤ (write_body (recovering 200)).1)
    × ((write_body (recovering 200)).1 ≤ 4)
    × (count
          (may_reach (recovering 200) leaves)
          (attempts (recovering 200) 0 (write_body (recovering 200)).1)
        ≤ 1)
write_body-sends_once_example = write_body-sends_once (recovering 200) leaves (refl, refl, refl)
