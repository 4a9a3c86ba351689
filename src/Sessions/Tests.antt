-- ===== src/Sessions/Tests.antt =====
-- A revocation that a slow read races with.
use brainstorm_server.Common.{◌≤◌, ◌≡◌, refl, true, none, List, [], ◌∷◌, arith}
use brainstorm_server.Sessions.{
  SessionState, Step, reads, caches, session_version_at, read_session_version_on_db,
  revoke_sessions, cache_session_version, after_event, run_steps,
}
use brainstorm_server.Sessions.Revocation.{revoke_sessions-bounded}

-- A read has version 4 still to cache.
abbrev racing : SessionState
racing = record { version = 4; cached = none; pending = (4, 99) ∷ [] }

-- The revocation caches its version, and then the read its own.
abbrev steps : List Step
steps =
    record { at = 101; up = true; event = caches 0 }
    ∷ record { at = 102; up = true; event = caches 0 }
    ∷ record { at = 170; up = true; event = reads }
    ∷ []

revoke_sessions-bounded_example :
    5 ≤ session_version_at true 170 (run_steps 10 steps (revoke_sessions 100 racing))
revoke_sessions-bounded_example =
    revoke_sessions-bounded 10 100 racing steps true 170 tt (omega arith, tt) (omega arith)

-- Until then, the read's version is given.
stale_before : session_version_at true 161 (run_steps 10 steps (revoke_sessions 100 racing)) ≡ 4
unfolding session_version_at run_steps after_event cache_session_version revoke_sessions
    read_session_version_on_db
stale_before = refl
