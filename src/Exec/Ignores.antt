-- ===== src/Exec/Ignores.antt =====
-- Blocks that neither read nor write a part of the state: a change of that part before the block is
-- the same change after it.
use buddy_bet_v.Prelude.{◌≡◌, refl, Bool, true, false, Option, none, some}
use buddy_bet_v.Exec.{Error, Result, ok, err, Exec, raise_if, some_or_raise, continue, ◌>>=◌, ◌>>◌}

module _ {S : Type 0} (change : S → S) where
  -- The outcome without the change, and with it.
  pub record Mirrors {A : Type 0} (out out' : Result A × S) : Type 0 where
    pub same : out' ≡ (out.0, change out.1)

  pub Mirrors-refl : {A : Type 0} (out : Result A × S) → Mirrors out (out.0, change out.1)
  Mirrors-refl out = record { same = refl }

  abbrev pub Ignores : {A : Type 0} → Exec S A → Type 0
  Ignores m = (s : S) → Mirrors (m s) (m (change s))

  pub Ignores-some : {A : Type 0} (e : Error) (o : Option A) → Ignores (some_or_raise e o)
  Ignores-some e none s = record { same = refl }
  Ignores-some e (some a) s = record { same = refl }

  pub Mirrors-call :
      {A B : Type 0} (m : Exec S A) (f : A → Exec S B) (s : S)
      → Ignores m
      → ((a : A) (s' : S) → Mirrors (f a s') (f a (change s')))
      → Mirrors ((m >>= f) s) ((m >>= f) (change s))
  Mirrors-call {A} {B} m f s first rest = rw ((first s).same) (go (m s))
    where
      go : (out : Result A × S) → Mirrors (continue out.0 f out.1) (continue out.0 f (change out.1))
      go (ok a, s') = rest a s'
      go (err e, s') = record { same = refl }

  pub Mirrors-raise_if :
      {B : Type 0} (b : Bool) (e : Error) (k : Exec S B) (s : S)
      → Mirrors (k s) (k (change s))
      → Mirrors ((raise_if b e >> k) s) ((raise_if b e >> k) (change s))
  Mirrors-raise_if true e k s rest = record { same = refl }
  Mirrors-raise_if false e k s rest = rest
