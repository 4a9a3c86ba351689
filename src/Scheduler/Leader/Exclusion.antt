-- ===== src/Scheduler/Leader/Exclusion.antt =====
-- Calls of app/services/leader_lock.py that do not interleave.
use brainstorm_server.Common.{
  ℕ, ◌+◌, ◌≤◌, ◌<◌, ◌≡◌, refl, sym, ap, inl, inr, String, Bool, true, false, none, some, List, [],
  ◌∷◌, arith, ltb, str_eq, eq_iff, Bool-cases, All, All-weaken, if◌then◌else◌,
}
use brainstorm_server.Scheduler.Leader.{
  LockKey, value_at, set_nx, set_xx, acquire_or_renew_with, acquire_or_renew_leader, Call,
  run_calls,
}

-- The instance holds the key until `until` at least.
abbrev pub Holds : String → ℕ → LockKey → Type 0
Holds a until key = (expires : ℕ) × (key ≡ some (a, expires)) × (until ≤ expires)

module _ (now : ℕ) (holder id : String) (expires ttl : ℕ) (live : now < expires) where
  pub value_held : value_at now (some (holder, expires)) ≡ some holder
  value_held = ground arith

  pub set_nx_held : set_nx now id ttl (some (holder, expires)) ≡ (false, some (holder, expires))
  unfolding set_nx
  set_nx_held = ground arith

  pub set_xx_held : set_xx now id ttl (some (holder, expires)) ≡ some (id, now + ttl)
  unfolding set_xx
  set_xx_held = ground arith

  -- A call on a key that is held: the holder renews it, and any other is turned away.
  call_held :
      acquire_or_renew_leader now id ttl (some (holder, expires))
      ≡ (if str_eq holder id then (true, some (id, now + ttl)) else (false, some (holder, expires)))
  unfolding acquire_or_renew_with
  call_held = rw set_nx_held (rw value_held (rw set_xx_held refl))

pub set_nx_free :
    (now expires : ℕ) (holder id : String) (ttl : ℕ)
    → expires ≤ now
    → set_nx now id ttl (some (holder, expires)) ≡ (true, some (id, now + ttl))
unfolding set_nx
set_nx_free now expires holder id ttl gone = ground arith

module _ (ttl : ℕ) (a : String) (until : ℕ) where
  -- While the key is held, a call succeeds exactly where it is the holder's, and the holder keeps it.
  call-Holds :
      (now : ℕ) (id : String) (key : LockKey)
      → Holds a until key
      → now < until
      → until ≤ now + ttl
      → ((acquire_or_renew_leader now id ttl key).0 ≡ str_eq a id)
        × Holds a until (acquire_or_renew_leader now id ttl key).1
  call-Holds now id key (expires, held, late) early renewed =
      let live : now < expires = omega arith in
      rw held (
        rw (call_held now a id expires ttl live) (elim (Bool-cases (str_eq a id)) [
          | inl e ↦
              let own : ◌≡◌ {A = LockKey} (some (id, now + ttl)) (some (a, now + ttl)) =
                ap (λ h. some (h, now + ttl)) (sym ((eq_iff a id).0 e)) in
              rw e (refl, (now + ttl, own, renewed))
          | inr e ↦ rw e (refl, (expires, refl, late))
        ]))

  abbrev InTime : Call → Type 0
  InTime c = (c.at < until) × (until ≤ c.at + ttl)

  calls-Holds :
      (cs : List Call) (key : LockKey)
      → Holds a until key
      → All InTime cs
      → All (λ (r : Call × Bool). r.1 ≡ str_eq a r.0.instance_id) (run_calls ttl cs key)
  unfolding run_calls
  calls-Holds [] key h times = tt
  calls-Holds (c ∷ cs) key h ((early, renewed), times) =
      let (answer, kept) = call-Holds c.at c.instance_id key h early renewed in
      (answer, calls-Holds cs _ kept times)

module _ (ttl : ℕ) where
  pub call_free :
      (now expires : ℕ) (holder id : String)
      → expires ≤ now
      → acquire_or_renew_leader now id ttl (some (holder, expires)) ≡ (true, some (id, now + ttl))
  unfolding acquire_or_renew_with
  call_free now expires holder id gone =
      let first : set_nx now id ttl (some (holder, expires)) ≡ (true, some (id, now + ttl)) =
        set_nx_free now expires holder id ttl gone in
      rw first refl

  won_held :
      (t : ℕ) (a holder : String) (expires : ℕ)
      → t < expires
      → (acquire_or_renew_leader t a ttl (some (holder, expires))).0 ≡ true
      → Holds a (t + ttl) (acquire_or_renew_leader t a ttl (some (holder, expires))).1
  won_held t a holder expires live h =
      let e = call_held t holder a expires ttl live in
      elim (Bool-cases (str_eq holder a)) [
        | inl own ↦ rw e (rw own (t + ttl, refl, omega arith))
        | inr other ↦ absurd (ground (arith, rw (e, other) at h))
      ]

  won-Holds :
      (t : ℕ) (a : String) (key : LockKey)
      → (acquire_or_renew_leader t a ttl key).0 ≡ true
      → Holds a (t + ttl) (acquire_or_renew_leader t a ttl key).1
  unfolding acquire_or_renew_with set_nx
  won-Holds t a none h = (t + ttl, refl, omega arith)
  won-Holds t a (some (holder, expires)) h = elim (Bool-cases (ltb t expires)) [
    | inl e ↦ won_held t a holder expires (ground arith) h
    | inr e ↦ rw (call_free t expires holder a (ground arith)) (t + ttl, refl, omega arith)
  ]

  -- Of calls that do not interleave: once an instance has the lock, each later call before the lock would
  -- expire succeeds exactly where it is that instance's own.
  pub acquire-exclusive :
      (t : ℕ) (a : String) (key : LockKey) (later : List Call)
      → (acquire_or_renew_leader t a ttl key).0 ≡ true
      → All (λ (c : Call). (t ≤ c.at) × (c.at < t + ttl)) later
      → All
          (λ (r : Call × Bool). r.1 ≡ str_eq a r.0.instance_id)
          (run_calls ttl later (acquire_or_renew_leader t a ttl key).1)
  acquire-exclusive t a key later won times =
      calls-Holds ttl a (t + ttl) later _ (won-Holds t a key won)
        (All-weaken _ _ (λ (c : Call) h. (h.1, omega (arith, h))) later times)
