-- ===== src/Sessions.antt =====
-- Session versions of one user: app/services/session_service.py and app/repos/session_version_repo.py. The
-- state is the committed version, the entry in Redis with the time that it expires at, and the writes to Redis
-- that are still to come, each with its version and the time that the version was read or committed at. A
-- step is what one request does in one go, so that requests interleave. Times are in seconds.
pub mod Revocation
mod Tests
use brainstorm_server.Common.{
  ℕ, suc, zero, ◌+◌, Bool, true, false, Option, none, some, List, [], ◌∷◌, ltb, leb, if◌then◌else◌,
}

abbrev pub session_version_cache_ttl_seconds : ℕ
session_version_cache_ttl_seconds = 60

pub record SessionState : Type 0 where
  pub version : ℕ
  pub cached : Option (ℕ × ℕ)
  pub pending : List (ℕ × ℕ)

abbrev live_entry : ℕ → Option (ℕ × ℕ) → Option ℕ
live_entry now none = none
live_entry now (some (v, expires)) = if ltb now expires then some v else none

-- `redis_client.get`, where `up` says whether Redis answers.
abbrev pub cached_at : Bool → ℕ → SessionState → Option ℕ
cached_at up now s = if up then live_entry now s.cached else none

abbrev or_version : Option ℕ → ℕ → ℕ
or_version none version = version
or_version (some v) version = v

-- What `read_session_version_on_db` gives.
unfoldable pub session_version_at : Bool → ℕ → SessionState → ℕ
session_version_at up now s = or_version (cached_at up now s) s.version

abbrev missed : Option ℕ → ℕ → SessionState → SessionState
missed (some v) now s = s
missed none now s = record s { pending = (s.version, now) ∷ s.pending }

-- The read itself, which on a miss has the version still to cache.
unfoldable pub read_session_version_on_db : Bool → ℕ → SessionState → SessionState
read_session_version_on_db up now s = missed (cached_at up now s) now s

-- `revoke_sessions` up to its commit; the version is still to cache.
unfoldable pub revoke_sessions : ℕ → SessionState → SessionState
revoke_sessions now s = record {
  version = suc s.version;
  cached = s.cached;
  pending = (suc s.version, now) ∷ s.pending;
}

abbrev pub drop_at : ℕ → List (ℕ × ℕ) → List (ℕ × ℕ)
drop_at n [] = []
drop_at zero (p ∷ ps) = ps
drop_at (suc n) (p ∷ ps) = p ∷ drop_at n ps

abbrev pub at_place : ℕ → List (ℕ × ℕ) → Option (ℕ × ℕ)
at_place n [] = none
at_place zero (p ∷ ps) = some p
at_place (suc n) (p ∷ ps) = at_place n ps

-- `cache_session_version`, by the request whose write is the given one of those to come. A request that has
-- been running for longer than `slack` is taken to have been ended by then, and a failed write to do nothing.
abbrev pub entry_after : Bool → ℕ → ℕ → Option (ℕ × ℕ) → Option (ℕ × ℕ) → Option (ℕ × ℕ)
entry_after up slack now none old = old
entry_after up slack now (some (v, read_at)) old =
    if up
    then (if leb now (read_at + slack)
        then some (v, now + session_version_cache_ttl_seconds)
        else old)
    else old

unfoldable pub cache_session_version : Bool → ℕ → ℕ → ℕ → SessionState → SessionState
cache_session_version up slack now n s = record {
  version = s.version;
  cached = entry_after up slack now (at_place n s.pending) s.cached;
  pending = drop_at n s.pending;
}

pub data Event : Type 0 where
  reads : Event
  revokes : Event
  caches : ℕ → Event

pub record Step : Type 0 where
  pub at : ℕ
  pub up : Bool
  pub event : Event

unfoldable pub after_event : ℕ → ℕ → Bool → Event → SessionState → SessionState
after_event slack now up reads s = read_session_version_on_db up now s
after_event slack now up revokes s = revoke_sessions now s
after_event slack now up (caches n) s = cache_session_version up slack now n s

unfoldable pub run_steps : ℕ → List Step → SessionState → SessionState
unfolding after_event
run_steps slack [] s = s
run_steps slack (e ∷ es) s = run_steps slack es (after_event slack e.at e.up e.event s)
