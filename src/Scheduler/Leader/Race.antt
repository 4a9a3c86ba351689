-- ===== src/Scheduler/Leader/Race.antt =====
-- Calls of app/services/leader_lock.py that interleave.
use brainstorm_server.Common.{ℕ, ◌+◌, ◌≤◌, ◌<◌, ◌≡◌, refl, ap, String, true, some, str_eq_refl}
use brainstorm_server.Scheduler.Leader.{LockKey, acquire_or_renew_with, acquire_or_renew_leader}
use brainstorm_server.Scheduler.Leader.Exclusion.{set_nx_held, set_xx_held, value_held, call_free}

module _ (a b : String) (ttl expires t u v w : ℕ) where
  -- What the other instance's call leaves.
  abbrev pub taken : LockKey → LockKey
  taken key = (acquire_or_renew_leader v b ttl key).1

  -- An instance renews its own lock, which expires once it has been read, and another instance takes it before
  -- the renewal writes: both calls succeed, and the lock is taken from the other instance.
  pub renewal-takes_over :
      t < expires
      → u < expires
      → expires ≤ v
      → v ≤ w
      → w < v + ttl
      → ((acquire_or_renew_leader v b ttl (some (a, expires))).0 ≡ true)
        × (acquire_or_renew_with (λ k. k) taken t u w a ttl (some (a, expires))
            ≡ (true, some (a, w + ttl)))
  unfolding acquire_or_renew_with
  renewal-takes_over live read gone order soon =
      let other = call_free ttl v expires a b gone in
      let left : ◌≡◌ {A = LockKey} (taken (some (a, expires))) (some (b, v + ttl)) =
        ap (λ r. r.1) other in
      (
        rw other refl,
        rw (set_nx_held t a a expires ttl live) (
            rw (value_held u a a expires ttl read)
              (rw (str_eq_refl a) (rw left (rw (set_xx_held w b a (v + ttl) ttl soon) refl)))),
      )
