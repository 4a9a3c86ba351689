-- ===== src/Billing/Unbilled.antt =====
-- A user without what billing granted: the two writes with which app/services/billing_service.py
-- and app/services/billing_sync_service.py take a policy back.
use brainstorm_server.Common.{
  ◌≡◌, ◌≢◌, refl, ap, ◌∙◌, String, true, Option, none, some, str_eq_refl, str_eq-ne,
}
use mathlib.Core.Option
use brainstorm_server.Table.{modify, find-modify}
use brainstorm_server.Billing.Tables.{Db, UserSubscription, default_source}
use brainstorm_server.Billing.Repos.Nsec.{nsec_of, assign}
use brainstorm_server.Billing.Repos.Subscriptions.{subscription_key, subscription_of, forget_grant}
use brainstorm_server.Billing.Apply.{granted_of}
use brainstorm_server.Billing.Apply.Writes.{find-assigned, assigned, row_or_new}

-- The database without what billing granted a user.
abbrev pub unbilled : String → Db → Db
unbilled pubkey db = record db {
  nsecs = assigned pubkey true none (some default_source) db.nsecs;
  subscriptions = modify subscription_key pubkey forget_grant db.subscriptions;
}

pub nsec_of-unbilled :
    (pubkey : String) (db : Db)
    → nsec_of (unbilled pubkey db) pubkey
      ≡ some (assign none default_source (row_or_new pubkey (nsec_of db pubkey)))
nsec_of-unbilled pubkey db =
    find-assigned pubkey pubkey true none (some default_source) db.nsecs ∙ rw (str_eq_refl pubkey)

pub granted-unbilled :
    (pubkey : String) (db : Db) → granted_of (subscription_of (unbilled pubkey db) pubkey) ≡ none
granted-unbilled pubkey db =
    ap granted_of
      (find-modify subscription_key pubkey pubkey forget_grant (λ r. refl) db.subscriptions)
    ∙ rw (str_eq_refl pubkey) (forgotten (subscription_of db pubkey))
  where
    forgotten : (o : Option UserSubscription) → granted_of (Option.map forget_grant o) ≡ none
    forgotten none = refl
    forgotten (some r) = refl

-- Nobody else's row or record changes.
pub nsec_of-unbilled_ne :
    (pubkey k : String) (db : Db) → k ≢ pubkey → nsec_of (unbilled pubkey db) k ≡ nsec_of db k
nsec_of-unbilled_ne pubkey k db h =
    find-assigned pubkey k true none (some default_source) db.nsecs ∙ rw (str_eq-ne pubkey k h)

pub subscription_of-unbilled_ne :
    (pubkey k : String) (db : Db)
    → k ≢ pubkey
    → subscription_of (unbilled pubkey db) k ≡ subscription_of db k
subscription_of-unbilled_ne pubkey k db h =
    find-modify subscription_key pubkey k forget_grant (λ r. refl) db.subscriptions
    ∙ rw (str_eq-ne pubkey k h)
