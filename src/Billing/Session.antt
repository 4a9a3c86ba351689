-- ===== src/Billing/Session.antt =====
-- A database session (app/core/database.py) as state, and the monad of the code that runs in it.
-- `db` is what the session's transaction sees, `saved` what is committed; `asked` counts the
-- requests made to Flash, so that Flash may answer each request differently. The two sequences
-- hand out row ids, and as in PostgreSQL no rollback takes an id back.
use brainstorm_server.Common.{ℕ, String, ◌≡◌, refl}
use brainstorm_server.Billing.Tables.{Db}

pub record Session : Type 0 where
  pub db : Db
  pub saved : Db
  pub asked : ℕ
  pub event_seq : ℕ
  pub plan_seq : ℕ

-- The exceptions that the billing code raises or catches. The text of an `HTTPException` is left
-- out. `other` is any exception that no clause names.
pub data Fault : Type 0 where
  flash_unavailable : String → Fault
  flash_credential_error : Fault
  flash_refused : ℕ → Fault
  http_exception : ℕ → Fault
  operational_error : Fault
  other : String → Fault

pub data Result {ℓ} (A : Type ℓ) : Type ℓ where
  ok : A → Result A
  raise : Fault → Result A

abbrev pub Exec {ℓ} : Type ℓ → Type ℓ
Exec A = Session → Result A × Session

abbrev pub continue {ℓ κ} :
    {A : Type ℓ} {B : Type κ} → Result A → (A → Exec B) → Session → Result B × Session
continue (ok a) f s = f a s
continue (raise e) f s = (raise e, s)

infixl 5 ◌>>=◌ ◌>>◌
abbrev pub ◌>>=◌ {ℓ κ} : {A : Type ℓ} {B : Type κ} → Exec A → (A → Exec B) → Exec B
◌>>=◌ m f s = continue (m s).0 f (m s).1

abbrev pub ◌>>◌ {ℓ κ} : {A : Type ℓ} {B : Type κ} → Exec A → Exec B → Exec B
m >> k = m >>= λ _. k

abbrev pub pure {ℓ} : {A : Type ℓ} → A → Exec A
pure a s = (ok a, s)

abbrev pub throw {ℓ} : {A : Type ℓ} → Fault → Exec A
throw e s = (raise e, s)

-- Mapping a result leaves the session alone.
pub continue-pure {ℓ κ} :
    {A : Type ℓ} {B : Type κ} (r : Result A) (f : A → B) (s : Session)
    → (continue r (λ a. pure (f a)) s).1 ≡ s
continue-pure (ok a) f s = refl
continue-pure (raise e) f s = refl

-- A read of the transaction's view.
abbrev pub reads {ℓ} : {A : Type ℓ} → (Db → A) → Exec A
reads f s = (ok (f s.db), s)

abbrev pub writes : (Db → Db) → Exec (Unit {0})
writes f s = (ok tt, record s { db = f s.db })

unfoldable pub commit : Exec (Unit {0})
commit s = (ok tt, record s { saved = s.db })

unfoldable pub rollback : Exec (Unit {0})
rollback s = (ok tt, record s { db = s.saved })
