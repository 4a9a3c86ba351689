-- ===== src/Webhook/Processing/Retries.antt =====
-- The retries of `_apply_with_db_retries` in app/services/flash_webhook_service.py.
use brainstorm_server.Common.{ℕ, zero, suc, ◌≤◌, ◌≡◌, refl, ap, ◌∙◌, Option, none, some, arith}
use brainstorm_server.Billing.Tables.{Db}
use brainstorm_server.Billing.Session.{Session, Exec, ok, rollback}
use brainstorm_server.Webhook.Processing.{broken_off, with_db_retries}

-- The attempt after `k` more.
abbrev pub after : ℕ → ℕ → ℕ
after n zero = n
after n (suc k) = after (suc n) k

-- The database breaks off `k` attempts from `n` on, and the one after them not.
abbrev pub BreaksOff : (ℕ → Option Db) → ℕ → ℕ → Type 0
BreaksOff interrupt n zero = interrupt n ≡ none
BreaksOff interrupt n (suc k) =
    ((db : Db) × (interrupt n ≡ some db)) × BreaksOff interrupt (suc n) k

module _ {ℓ} {A : Type ℓ} (interrupt : ℕ → Option Db) (attempt : ℕ → Exec A) where
  abbrev tries : ℕ → Exec A
  tries n = broken_off (interrupt n) (attempt n)

  -- An attempt that returns is the last.
  returned :
      (n left : ℕ) (s : Session) (a : A) (o : Option Db)
      → interrupt n ≡ o
      → o ≡ none
      → (attempt n s).0 ≡ ok a
      → with_db_retries tries n left s ≡ attempt n s
  unfolding with_db_retries
  returned n zero s a o e c h = rw e (rw c refl)
  returned n (suc left) s a o e c h = rw e (rw c (rw h refl))

  -- With nothing uncommitted: where the database breaks off no more attempts than are left, and the
  -- next returns, the whole comes to that attempt, made on the session as it was: the broken ones leave no trace.
  pub retries-recover :
      (k n left : ℕ) (s : Session) (a : A)
      → BreaksOff interrupt n k
      → k ≤ left
      → s.saved ≡ s.db
      → (attempt (after n k) s).0 ≡ ok a
      → with_db_retries tries n left s ≡ attempt (after n k) s
  unfolding with_db_retries rollback
  retries-recover zero n left s a broken h clean fine = returned n left s a none broken refl fine
  retries-recover (suc k) n zero s a broken h clean fine = absurd (omega (arith, h))
  retries-recover (suc k) n (suc left) s a ((db, e), broken) h clean fine =
      let restored : record s { db = s.saved } ≡ s = ap (λ d. record s { db = d }) clean in
      rw e (
        ap (with_db_retries tries (suc n) left) restored
        ∙ retries-recover k (suc n) left s a broken (omega (arith, h)) clean fine)
