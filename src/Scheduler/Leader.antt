-- ===== src/Scheduler/Leader.antt =====
-- app/services/leader_lock.py: the lock in Redis that one instance of the server holds at a time. The
-- state is the one key: its value and the time that it expires at. Each command of Redis is atomic, and
-- other instances may issue theirs between those of a call.
pub mod Exclusion
pub mod Race
use brainstorm_server.Common.{
  ℕ, ◌+◌, String, Bool, true, false, Option, none, some, ltb, str_eq, if◌then◌else◌, List, [], ◌∷◌,
}

abbrev pub LockKey : Type 0
LockKey = Option (String × ℕ)

abbrev pub value_at : ℕ → LockKey → Option String
value_at now none = none
value_at now (some (holder, expires)) = if ltb now expires then some holder else none

-- `SET key value NX PX ttl`: whether it was set.
abbrev nx_over : Option String → String → ℕ → LockKey → Bool × LockKey
nx_over none id expires key = (true, some (id, expires))
nx_over (some holder) id expires key = (false, key)

unfoldable pub set_nx : ℕ → String → ℕ → LockKey → Bool × LockKey
set_nx now id ttl key = nx_over (value_at now key) id (now + ttl) key

-- `SET key value XX PX ttl`, which sets a key that is there, whatever its value.
abbrev xx_over : Option String → String → ℕ → LockKey → LockKey
xx_over none id expires key = key
xx_over (some holder) id expires key = some (id, expires)

unfoldable pub set_xx : ℕ → String → ℕ → LockKey → LockKey
set_xx now id ttl key = xx_over (value_at now key) id (now + ttl) key

abbrev pub is_own : Option String → String → Bool
is_own none id = false
is_own (some holder) id = str_eq holder id

-- The call, with what happens to the key between its commands, and the times of the three.
unfoldable pub acquire_or_renew_with :
    (LockKey → LockKey) → (LockKey → LockKey) → ℕ → ℕ → ℕ → String → ℕ → LockKey → Bool × LockKey
acquire_or_renew_with before_get before_set t u v id ttl key =
    let first : Bool × LockKey = set_nx t id ttl key in
    let seen : LockKey = before_get first.1 in
    if first.0
    then (true, first.1)
    else if is_own (value_at u seen) id
    then (true, set_xx v id ttl (before_set seen))
    else (false, seen)

-- A call that nothing comes between, at one moment.
abbrev pub acquire_or_renew_leader : ℕ → String → ℕ → LockKey → Bool × LockKey
acquire_or_renew_leader now id ttl key =
    acquire_or_renew_with (λ k. k) (λ k. k) now now now id ttl key

pub record Call : Type 0 where
  pub at : ℕ
  pub instance_id : String

-- The answers of calls made one after the other.
unfoldable pub run_calls : ℕ → List Call → LockKey → List (Call × Bool)
run_calls ttl [] key = []
run_calls ttl (c ∷ cs) key =
    let step : Bool × LockKey = acquire_or_renew_leader c.at c.instance_id ttl key in
    (c, step.0) ∷ run_calls ttl cs step.1
