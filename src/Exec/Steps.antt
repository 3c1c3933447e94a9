-- ===== src/Exec/Steps.antt =====
-- Rules that walk through a block one guard at a time: a guard raises, or the rest of the block runs
-- and may use that the guard did not hold.
use buddy_bet_v.Prelude.{◌≡◌, refl, Bool, true, false}
use buddy_bet_v.Exec.{Error, Result, ok, err, Exec, raise_if, ◌>>=◌, ◌>>◌}

module _ {S B : Type 0} (P : Result B × S → Type 0) where
  pub raise_if-step :
      (b : Bool) (e : Error) (k : Exec S B) (s : S)
      → P (err e, s)
      → (b ≡ false → P (k s))
      → P ((raise_if b e >> k) s)
  raise_if-step true e k s raised rest = raised
  raise_if-step false e k s raised rest = rest refl

  pub bind-step :
      {A : Type 0} (m : Exec S A) (f : A → Exec S B) (s s' : S) (a : A)
      → m s ≡ (ok a, s')
      → P (f a s')
      → P ((m >>= f) s)
  bind-step m f s s' a returned rest = rw returned rest
