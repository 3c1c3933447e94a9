-- ===== src/Money/Rounding.antt =====
-- How far rounding moves an amount, and what it does to amounts that are not whole cents.
use buddy_bet_v.Prelude.{◌+◌, ◌*◌, ◌≡◌, arith, ℕ}
use buddy_bet_v.Prelude.Int.{pos, negsuc, ◌+ℤ◌, ◌-ℤ◌, ◌≤ℤ◌}
use buddy_bet_v.Money.{Decimal, cent, round_half_up, safe_add, safe_subtract}
use buddy_bet_v.Money.Cents.{IsCents, IsCents-round_half_up}

near : (a : Decimal) → (a ≤ℤ round_half_up a +ℤ pos 5000) × (round_half_up a ≤ℤ a +ℤ pos 5000)
unfolding round_half_up ◌+ℤ◌
near (pos n) = ground arith
near (negsuc n) = ground arith

-- `round_half_up` gives whole cents, at most half a cent away from the amount.
pub round_half_up-nearest :
    (a : Decimal)
    → IsCents (round_half_up a)
      × (a ≤ℤ round_half_up a +ℤ pos 5000)
      × (round_half_up a ≤ℤ a +ℤ pos 5000)
round_half_up-nearest a = let (above, below) = near a in (IsCents-round_half_up a, above, below)

-- An amount that is half a cent above a whole number of cents.
abbrev pub half_above : ℕ → Decimal
half_above k = pos (k * cent + 5000)

pub safe_subtract-half :
    (a : Decimal) (k : ℕ)
    → IsCents a
    → half_above k ≤ℤ a
    → safe_subtract a (half_above k) ≡ a -ℤ pos (k * cent)
unfolding safe_subtract ◌-ℤ◌
safe_subtract-half (pos n) k cents enough = ground arith
safe_subtract-half (negsuc n) k cents enough = absurd (omega arith)

pub safe_add-half :
    (a : Decimal) (k : ℕ)
    → IsCents a
    → pos 0 ≤ℤ a
    → safe_add a (half_above k) ≡ a +ℤ pos (k * cent + cent)
unfolding safe_add ◌+ℤ◌
safe_add-half (pos n) k cents nonneg = ground arith
safe_add-half (negsuc n) k cents nonneg = absurd (omega arith)
