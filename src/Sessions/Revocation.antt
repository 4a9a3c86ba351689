-- ===== src/Sessions/Revocation.antt =====
-- How long a revoked session can last in app/repos/session_version_repo.py.
use brainstorm_server.Common.{
  ℕ, suc, zero, ◌+◌, ◌≤◌, ◌⊎◌, inl, inr, Bool, true, false, Option, none, some, List, [], ◌∷◌,
  arith, leb, All, All-weaken, Bool-cases, Option-cases,
}
use brainstorm_server.Sessions.{
  SessionState, session_version_cache_ttl_seconds, cached_at, session_version_at,
  read_session_version_on_db, revoke_sessions, drop_at, at_place, entry_after,
  cache_session_version, Event, reads, revokes, caches, Step, after_event, run_steps,
}

module _ (slack revoked minted : ℕ) where
  -- The version is new, or was read before the revocation.
  abbrev pub IsNewOrEarly : ℕ × ℕ → Type 0
  IsNewOrEarly p = (minted ≤ p.0) ⊎ (p.1 ≤ revoked)

  -- The entry is new, or expires in time.
  abbrev pub IsNewOrExpiring : Option (ℕ × ℕ) → Type 0
  IsNewOrExpiring none = Unit
  IsNewOrExpiring (some (v, expires)) =
      (minted ≤ v) ⊎ (expires ≤ revoked + slack + session_version_cache_ttl_seconds)

  pub record IsBounded (s : SessionState) : Type 0 where
    pub version_new : minted ≤ s.version
    pub cached_bounded : IsNewOrExpiring s.cached
    pub pending_bounded : All IsNewOrEarly s.pending

  drop-bounded : (n : ℕ) (ps : List (ℕ × ℕ)) → All IsNewOrEarly ps → All IsNewOrEarly (drop_at n ps)
  drop-bounded n [] h = tt
  drop-bounded zero (p ∷ ps) h = h.1
  drop-bounded (suc n) (p ∷ ps) h = (h.0, drop-bounded n ps h.1)

  write-bounded :
      (up : Bool) (now n : ℕ) (ps : List (ℕ × ℕ)) (old : Option (ℕ × ℕ))
      → All IsNewOrEarly ps
      → IsNewOrExpiring old
      → IsNewOrExpiring (entry_after up slack now (at_place n ps) old)
  write-bounded up now n [] old h k = k
  write-bounded up now (suc n) (p ∷ ps) old h k = write-bounded up now n ps old h.1 k
  write-bounded false now zero (p ∷ ps) old h k = k
  write-bounded true now zero ((v, read_at) ∷ ps) old h k =
      elim (Bool-cases (leb now (read_at + slack))) [
        | inr e ↦ rw e k
        | inl e ↦ elim h.0 [ inl new ↦ rw e (inl new) | inr early ↦ rw e (inr (ground arith)) ]
      ]

  after_event-IsBounded :
      (now : ℕ) (up : Bool) (e : Event) (s : SessionState)
      → IsBounded s
      → IsBounded (after_event slack now up e s)
  unfolding after_event read_session_version_on_db revoke_sessions cache_session_version
  after_event-IsBounded now up reads s h = elim (Option-cases (cached_at up now s)) [
    | inr (v, e) ↦ rw e h
    | inl e ↦ rw e (record {
      version_new = h.version_new;
      cached_bounded = h.cached_bounded;
      pending_bounded = (inl h.version_new, h.pending_bounded);
    })
  ]
  after_event-IsBounded now up revokes s h = record {
    version_new = omega (arith, h.version_new);
    cached_bounded = h.cached_bounded;
    pending_bounded = (inl (omega (arith, h.version_new)), h.pending_bounded);
  }
  after_event-IsBounded now up (caches n) s h = record {
    version_new = h.version_new;
    cached_bounded = write-bounded up now n s.pending s.cached h.pending_bounded h.cached_bounded;
    pending_bounded = drop-bounded n s.pending h.pending_bounded;
  }

  run_steps-IsBounded :
      (es : List Step) (s : SessionState) → IsBounded s → IsBounded (run_steps slack es s)
  unfolding run_steps
  run_steps-IsBounded [] s h = h
  run_steps-IsBounded (e ∷ es) s h =
      run_steps-IsBounded es _ (after_event-IsBounded e.at e.up e.event s h)

  bounded_read :
      (up : Bool) (now version : ℕ) (entry : Option (ℕ × ℕ)) (pending : List (ℕ × ℕ))
      → minted ≤ version
      → IsNewOrExpiring entry
      → revoked + slack + session_version_cache_ttl_seconds ≤ now
      → minted
        ≤ session_version_at up now
            (record { version = version; cached = entry; pending = pending })
  unfolding session_version_at
  bounded_read false now version entry pending h k late = h
  bounded_read true now version none pending h k late = h
  bounded_read true now version (some (v, expires)) pending h (inl new) late = ground arith
  bounded_read true now version (some (v, expires)) pending h (inr soon) late = ground arith

-- The entry was written by the moment.
abbrev pub WrittenBy : ℕ → Option (ℕ × ℕ) → Type 0
WrittenBy t none = Unit
WrittenBy t (some (v, expires)) = expires ≤ t + session_version_cache_ttl_seconds

-- Each write that is still to come has its version from before the moment.
abbrev pub ReadBy : ℕ → ℕ × ℕ → Type 0
ReadBy t p = p.1 ≤ t

entry_expires :
    (slack t minted : ℕ) (entry : Option (ℕ × ℕ))
    → WrittenBy t entry
    → IsNewOrExpiring slack t minted entry
entry_expires slack t minted none h = tt
entry_expires slack t minted (some (v, expires)) h = inr (omega (arith, h))

revoke-IsBounded :
    (slack t : ℕ) (s : SessionState)
    → WrittenBy t s.cached
    → All (ReadBy t) s.pending
    → IsBounded slack t (suc s.version) (revoke_sessions t s)
unfolding revoke_sessions
revoke-IsBounded slack t s entry pending = record {
  version_new = omega arith;
  cached_bounded = entry_expires slack t (suc s.version) s.cached entry;
  pending_bounded = (inl (omega arith), All-weaken _ _ (λ p h. inr h) s.pending pending);
}

-- The sessions of a user are revoked at a moment, and requests go on in whatever order: once the longest
-- that a request may run and the life of an entry have passed since, no read gives a version from before.
pub revoke_sessions-bounded :
    (slack t : ℕ) (s : SessionState) (es : List Step) (up : Bool) (now : ℕ)
    → WrittenBy t s.cached
    → All (ReadBy t) s.pending
    → t + slack + session_version_cache_ttl_seconds ≤ now
    → suc s.version ≤ session_version_at up now (run_steps slack es (revoke_sessions t s))
revoke_sessions-bounded slack t s es up now entry pending late =
    let h =
      run_steps-IsBounded slack t (suc s.version) es (revoke_sessions t s)
        (revoke-IsBounded slack t s entry pending) in
    bounded_read slack t (suc s.version) up now _ _ _ h.version_new h.cached_bounded late
