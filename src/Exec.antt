-- ===== src/Exec.antt =====
-- Methods that write to the session and may raise (app/core/exceptions.py, app/db/session.py).
-- What was written before a raise stays in the session until the caller rolls back, so the state
-- comes back beside the error too.
pub mod Steps
pub mod OnOk
pub mod Ignores
use buddy_bet_v.Prelude.{◌≡◌, Bool, Option, none, some, if◌then◌else◌}

-- The exceptions that the modelled services raise, the errors of a value of another
-- type than expected, and any error of the database's driver.
pub data Error : Type 0 where
  forbidden not_found conflict validation insufficient_funds bet_not_available bet_expired : Error
  self_bet prediction_conflict match_not_available account_ineligible : Error
  settlement_idempotency unauthorized malformed database_error : Error

pub data Result (A : Type 0) : Type 0 where
  ok : A → Result A
  err : Error → Result A

abbrev pub Exec : Type 0 → Type 0 → Type 0
Exec S A = S → Result A × S

module _ {S A : Type 0} where
  abbrev pub pure : A → Exec S A
  pure a s = (ok a, s)

  abbrev pub raise : Error → Exec S A
  raise e s = (err e, s)

  abbrev pub gets : (S → A) → Exec S A
  gets f s = (ok (f s), s)

  -- `if x is None: raise e`
  abbrev pub some_or_raise : Error → Option A → Exec S A
  some_or_raise e none = raise e
  some_or_raise e (some a) = pure a

module _ {S : Type 0} where
  abbrev pub modify : (S → S) → Exec S (Unit {0})
  modify f s = (ok tt, f s)

  -- `if b: raise e`
  abbrev pub raise_if : Bool → Error → Exec S (Unit {0})
  raise_if b e s = (if b then err e else ok tt, s)

module _ {S A B : Type 0} where
  abbrev pub continue : Result A → (A → Exec S B) → Exec S B
  continue (ok a) f s = f a s
  continue (err e) f s = (err e, s)

  infixl 5 ◌>>=◌ ◌>>◌
  abbrev pub ◌>>=◌ : Exec S A → (A → Exec S B) → Exec S B
  ◌>>=◌ m f s = let (r, s') = m s in continue r f s'

  abbrev pub ◌>>◌ : Exec S A → Exec S B → Exec S B
  m >> n = m >>= λ _. n

module _ {S A : Type 0} where
  abbrev pub settle : S → Result A × S → Result A × S
  settle s (ok a, s') = (ok a, s')
  settle s (err e, s') = (err e, s)

  -- `commit` after a return, `rollback` after a raise, which is then raised again.
  unfoldable pub transaction : Exec S A → Exec S A
  transaction m s = settle s (m s)
