-- ===== src/Billing/Admin/Block.antt =====
-- The block of app/services/billing_service.py: it takes back what billing granted, and nothing is
-- granted while it stands.
use brainstorm_server.Common.{
  ◌≡◌, ◌≢◌, refl, ap, ◌∙◌, eq_iff, String, Bool, true, false, none, some, Bool-cases, inl, inr, ◌⊎◌,
  str_eq, str_eq_refl, if◌then◌else◌,
}
use brainstorm_server.Billing.Tables.{Db, BrainstormNsec, default_source, billing_source}
use brainstorm_server.Billing.Session.{Session, Result, ok, commit}
use brainstorm_server.Billing.Environment.{Environment}
use brainstorm_server.Billing.Repos.Nsec.{nsec_of, nsec_key, assign, source_of, blocked_of}
use brainstorm_server.Billing.Repos.Subscriptions.{subscription_of}
use brainstorm_server.Billing.Apply.{granted_of}
use brainstorm_server.Table.{modify, find-modify}
use brainstorm_server.Billing.Apply.Writes.{row_or_new}
use brainstorm_server.Billing.Unbilled.{unbilled, nsec_of-unbilled, granted-unbilled}
use brainstorm_server.Billing.Admin.{BlockOutcome, set_billing_block, revoke_if_billed}

revoke_if_billed_lem :
    (pubkey : String) (s : Session)
    → revoke_if_billed pubkey true s ≡ (
        if str_eq (source_of (nsec_of s.db pubkey)) billing_source
        then (ok true, record s { db = unbilled pubkey s.db })
        else (ok false, s))
unfolding revoke_if_billed
revoke_if_billed_lem pubkey s =
    elim (Bool-cases (str_eq (source_of (nsec_of s.db pubkey)) billing_source)) [
      | inl e ↦ rw e
      | inr e ↦ rw e
    ]

abbrev pub with_block : BrainstormNsec → BrainstormNsec
with_block r = record r { billing_blocked = true }

abbrev barred : String → Db → Db
barred pubkey db = record db { nsecs = modify nsec_key pubkey with_block db.nsecs }

nsec_of-barred :
    (pubkey : String) (db : Db) (r : BrainstormNsec)
    → nsec_of db pubkey ≡ some r
    → nsec_of (barred pubkey db) pubkey ≡ some (with_block r)
nsec_of-barred pubkey db r e =
    find-modify nsec_key pubkey pubkey with_block (λ r. refl) db.nsecs ∙ rw (str_eq_refl pubkey, e)

abbrev pub block_outcome : Bool → BlockOutcome
block_outcome is_revoked = record { found = true; is_blocked = true; is_revoked = is_revoked }

abbrev committed : Bool → Db → Session → Result BlockOutcome × Session
committed is_revoked db s = (ok (block_outcome is_revoked), record s { db = db; saved = db })

set_billing_block_lem :
    (env : Environment) (pubkey : String) (s : Session) (r : BrainstormNsec)
    → nsec_of s.db pubkey ≡ some r
    → set_billing_block env pubkey true s ≡ (
        if str_eq (source_of (some r)) billing_source
        then committed true (unbilled pubkey (barred pubkey s.db)) s
        else committed false (barred pubkey s.db) s)
unfolding set_billing_block commit
set_billing_block_lem env pubkey s r known = rw known (
    rw (revoke_if_billed_lem pubkey) (
      rw (nsec_of-barred pubkey s.db r known)
        (elim (Bool-cases (str_eq (source_of (some r)) billing_source)) [
          | inl e ↦ rw e
          | inr e ↦ rw e
        ])))

-- Blocking a user who exists succeeds: they are blocked, a policy that billing assigned is taken back
-- with the record of its grant, a policy that anyone else assigned is left as it was with the
-- records, the answer says which, and all of it is committed.
pub block_lem :
    (env : Environment) (pubkey : String) (s : Session) (r : BrainstormNsec)
    → nsec_of s.db pubkey ≡ some r
    → let run = set_billing_block env pubkey true s in
      (blocked_of (nsec_of run.1.db pubkey) ≡ true)
      × (((source_of (some r) ≡ billing_source)
            × (run.0 ≡ ok (block_outcome true))
            × (nsec_of run.1.db pubkey ≡ some (assign none default_source (with_block r)))
            × (granted_of (subscription_of run.1.db pubkey) ≡ none))
          ⊎ ((source_of (some r) ≢ billing_source)
              × (run.0 ≡ ok (block_outcome false))
              × (nsec_of run.1.db pubkey ≡ some (with_block r))
              × (run.1.db.subscriptions ≡ s.db.subscriptions)))
      × (run.1.saved ≡ run.1.db)
block_lem env pubkey s r known =
    let row : nsec_of (barred pubkey s.db) pubkey ≡ some (with_block r) =
      nsec_of-barred pubkey s.db r known in
    let gone : nsec_of (unbilled pubkey (barred pubkey s.db)) pubkey
        ≡ some (assign none default_source (with_block r)) =
      nsec_of-unbilled pubkey (barred pubkey s.db)
      ∙ ap (λ o. some (assign none default_source (row_or_new pubkey o))) row in
    rw (set_billing_block_lem env pubkey s r known)
      (elim (Bool-cases (str_eq (source_of (some r)) billing_source)) [
        | inl e ↦ rw e (
          ap blocked_of gone,
          inl ((eq_iff _ _).0 e, refl, gone, granted-unbilled pubkey (barred pubkey s.db)),
          refl,
        )
        | inr e ↦ rw e (
          ap blocked_of row,
          inr ((λ b. cc ((eq_iff (source_of (some r)) billing_source).1 b, e)), refl, row, refl),
          refl,
        )
      ])
