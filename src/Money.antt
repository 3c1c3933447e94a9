-- ===== src/Money.antt =====
-- Monetary arithmetic (app/utils/decimal_utils.py).
-- A `Decimal` is an integer number of millionths: amounts with up to six decimal places, which
-- holds every stored amount (two places) and every fee rate (four places) exactly.
use buddy_bet_v.Prelude.{ℕ, zero, suc, ◌+◌, ◌*◌, ◌/◌, ◌^◌, if◌then◌else◌}
use buddy_bet_v.Prelude.Int.{ℤ, pos, negsuc, ◌+ℤ◌, ◌-ℤ◌, ◌*ℤ◌, ltb_ℤ}
pub mod Cents
pub mod Steps
pub mod Rounding
use buddy_bet_v.Exec.{Exec, raise_if, validation}

abbrev pub Decimal : Type 0
Decimal = ℤ

-- millionths in a cent
abbrev pub cent : ℕ
cent = 10000

abbrev pub neg : ℕ → ℤ
neg zero = pos 0
neg (suc n) = negsuc n

-- The nearest whole number of cents to `n` parts, of which `unit` (an even number) make a cent.
abbrev pub nearest_cent : ℕ → ℕ → ℕ
nearest_cent unit n = (n + unit / 2) / unit * cent

-- `quantize(_CENT, rounding=ROUND_HALF_UP)`: a tie goes away from zero.
unfoldable pub quantize : ℕ → ℤ → Decimal
quantize unit (pos n) = pos (nearest_cent unit n)
quantize unit (negsuc n) = neg (nearest_cent unit (suc n))

unfoldable pub round_half_up : Decimal → Decimal
unfolding quantize
round_half_up value = quantize cent value

unfoldable pub safe_add : Decimal → Decimal → Decimal
unfolding round_half_up
safe_add a b = round_half_up (a +ℤ b)

unfoldable pub safe_subtract : Decimal → Decimal → Decimal
unfolding round_half_up
safe_subtract a b = round_half_up (a -ℤ b)

-- The product of two numbers of millionths is a number of millionths of millionths.
unfoldable pub safe_multiply : Decimal → Decimal → Decimal
unfolding quantize
safe_multiply value rate = quantize (cent * 10 ^ 6) (value *ℤ rate)

unfoldable pub verify_non_negative : {S : Type 0} → Decimal → Exec S (Unit {0})
verify_non_negative value = raise_if (ltb_ℤ value (pos 0)) validation
