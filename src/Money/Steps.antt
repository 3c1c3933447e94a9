-- ===== src/Money/Steps.antt =====
-- Walking past a `verify_non_negative`.
use buddy_bet_v.Prelude.{◌≡◌, arith}
use buddy_bet_v.Prelude.Int.{pos, ltb_ℤ, ◌≤ℤ◌}
use buddy_bet_v.Exec.{Result, err, Exec, validation, ◌>>◌}
use buddy_bet_v.Exec.Steps.{raise_if-step}
use buddy_bet_v.Money.{Decimal, verify_non_negative}
use mathlib.Core.Bool.{false}

nonneg_of_test : (value : Decimal) → ltb_ℤ value (pos 0) ≡ false → pos 0 ≤ℤ value
nonneg_of_test value h = ground arith

module _ {S B : Type 0} (P : Result B × S → Type 0) where
  pub verify_non_negative-step :
      (value : Decimal) (k : Exec S B) (s : S)
      → P (err validation, s)
      → (pos 0 ≤ℤ value → P (k s))
      → P ((verify_non_negative value >> k) s)
  unfolding verify_non_negative
  verify_non_negative-step value k s raised rest =
      raise_if-step P (ltb_ℤ value (pos 0)) validation k s raised
        (λ h. rest (nonneg_of_test value h))
