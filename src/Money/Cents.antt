-- ===== src/Money/Cents.antt =====
-- Addition and subtraction on whole cents, the amounts that the database stores.
use buddy_bet_v.Prelude.{◌%◌, ◌≡◌, arith}
use buddy_bet_v.Prelude.Int.{pos, negsuc, pos_part, neg_part, ◌+ℤ◌, ◌-ℤ◌}
use buddy_bet_v.Money.{Decimal, cent, round_half_up, safe_add, safe_subtract}

-- A whole number of cents.
abbrev pub IsCents : Decimal → Type 0
IsCents a = (pos_part a % cent ≡ 0) × (neg_part a % cent ≡ 0)

pub round_half_up-cents : (a : Decimal) → IsCents a → round_half_up a ≡ a
unfolding round_half_up
round_half_up-cents (pos n) h = ground arith
round_half_up-cents (negsuc n) h = ground arith

pub IsCents-round_half_up : (a : Decimal) → IsCents (round_half_up a)
unfolding round_half_up
IsCents-round_half_up (pos n) = ground arith
IsCents-round_half_up (negsuc n) = ground arith

pub IsCents-+ℤ : (a b : Decimal) → IsCents a → IsCents b → IsCents (a +ℤ b)
unfolding ◌+ℤ◌
IsCents-+ℤ a b h k = ground arith

pub IsCents--ℤ : (a b : Decimal) → IsCents a → IsCents b → IsCents (a -ℤ b)
unfolding ◌-ℤ◌
IsCents--ℤ a b h k = ground arith

pub safe_add-cents : (a b : Decimal) → IsCents a → IsCents b → safe_add a b ≡ a +ℤ b
unfolding safe_add
safe_add-cents a b h k = unfold safe_add in round_half_up-cents (a +ℤ b) (IsCents-+ℤ a b h k)

pub safe_subtract-cents : (a b : Decimal) → IsCents a → IsCents b → safe_subtract a b ≡ a -ℤ b
unfolding safe_subtract
safe_subtract-cents a b h k = round_half_up-cents (a -ℤ b) (IsCents--ℤ a b h k)

pub IsCents-safe_add : (a b : Decimal) → IsCents (safe_add a b)
unfolding safe_add
IsCents-safe_add a b = IsCents-round_half_up (a +ℤ b)

pub IsCents-safe_subtract : (a b : Decimal) → IsCents (safe_subtract a b)
unfolding safe_subtract
IsCents-safe_subtract a b = IsCents-round_half_up (a -ℤ b)
