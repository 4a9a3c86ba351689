-- ===== src/Billing/Repos/Nsec.antt =====
-- app/repos/brainstorm_nsec.py and app/repos/scheduling_repo.py, as far as billing calls them,
-- and the row lock of app/repos/user_subscription_repo.py.
use brainstorm_server.Common.{
  ℕ, String, Bool, false, not, ◌&&◌, Option, none, some, List, [], ◌∷◌, is_some, str_eq, ◌==◌,
  if◌then◌else◌,
}
use brainstorm_server.Table.{find, modify, upsert}
use brainstorm_server.Billing.Tables.{Db, BrainstormNsec, Scheduling, default_source}
use brainstorm_server.Billing.Session.{Exec, reads, writes, ◌>>◌}

abbrev pub nsec_key : BrainstormNsec → String
nsec_key r = r.pubkey

abbrev pub nsec_of : Db → String → Option BrainstormNsec
nsec_of db pubkey = find nsec_key pubkey db.nsecs

abbrev pub brainstorm_nsec_exists_by_pubkey_on_db : String → Exec Bool
brainstorm_nsec_exists_by_pubkey_on_db pubkey = reads λ db. is_some (nsec_of db pubkey)

abbrev pub blocked_of : Option BrainstormNsec → Bool
blocked_of none = false
blocked_of (some r) = r.billing_blocked

abbrev pub is_billing_blocked_on_db : String → Exec Bool
is_billing_blocked_on_db pubkey = reads λ db. blocked_of (nsec_of db pubkey)

-- `scalar_one_or_none() or "default"`.
abbrev pub source_of : Option BrainstormNsec → String
source_of none = default_source
source_of (some r) = if str_eq r.scheduling_source "" then default_source else r.scheduling_source

abbrev pub get_scheduling_source_on_db : String → Exec String
get_scheduling_source_on_db pubkey = reads λ db. source_of (nsec_of db pubkey)

-- True if a row was updated.
abbrev pub set_billing_blocked_on_db : String → Bool → Exec Bool
set_billing_blocked_on_db pubkey blocked = do
  writes λ db. record db {
    nsecs = modify nsec_key pubkey (λ r. record r { billing_blocked = blocked }) db.nsecs;
  }
  reads λ db. is_some (nsec_of db pubkey)

-- The row that `get_or_create_brainstorm_observer_nsec_by_pubkey_on_db` adds for a new user; its
-- key material is not modelled.
abbrev pub new_nsec : String → BrainstormNsec
new_nsec pubkey = record {
  pubkey = pubkey;
  scheduling_id = none;
  scheduling_source = default_source;
  billing_blocked = false;
}

abbrev pub assign : Option ℕ → String → BrainstormNsec → BrainstormNsec
assign scheduling_id source r = record r {
  scheduling_id = scheduling_id;
  scheduling_source = source;
}

-- Get or create the row, then assign the policy and say who decided.
abbrev pub set_scheduling_for_pubkey_on_db : String → Option ℕ → String → Exec (Unit {0})
set_scheduling_for_pubkey_on_db pubkey scheduling_id source = do
  writes λ db. record db { nsecs = upsert nsec_key (new_nsec pubkey) (λ r. r) db.nsecs }
  writes λ db. record db { nsecs = modify nsec_key pubkey (assign scheduling_id source) db.nsecs }

-- SELECT ... FOR UPDATE on the user's row. `held` says which rows another transaction has locked;
-- without `skip_locked` the statement waits until that one has ended.
abbrev pub lock_user_for_update_on_db : (String → Bool) → String → Bool → Exec Bool
lock_user_for_update_on_db held pubkey skip_locked =
    reads λ db. is_some (nsec_of db pubkey) && not (skip_locked && held pubkey)

abbrev pub scheduling_with : ℕ → List Scheduling → Option Scheduling
scheduling_with scheduling_id [] = none
scheduling_with scheduling_id (r ∷ rs) =
    if r.id == scheduling_id then some r else scheduling_with scheduling_id rs

abbrev pub get_scheduling_on_db : ℕ → Exec (Option Scheduling)
get_scheduling_on_db scheduling_id = reads λ db. scheduling_with scheduling_id db.schedulings

abbrev pub scheduling_exists_on_db : ℕ → Exec Bool
scheduling_exists_on_db scheduling_id =
    reads λ db. is_some (scheduling_with scheduling_id db.schedulings)
