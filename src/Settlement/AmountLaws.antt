-- ===== src/Settlement/AmountLaws.antt =====
-- The fee and what the users get (app/services/settlement_service.py), and their sums.
use buddy_bet_v.Prelude.{ℕ, ◌*◌, ◌%◌, ◌^◌, ◌≤◌, ◌≡◌, arith}
use buddy_bet_v.Prelude.Int.{pos, negsuc, ◌+ℤ◌, ◌-ℤ◌, ◌*ℤ◌, ◌≤ℤ◌, int_laws}
use buddy_bet_v.Money.{Decimal, cent, nearest_cent, safe_multiply}
use buddy_bet_v.Money.Cents.{IsCents, safe_add-cents, safe_subtract-cents, IsCents-+ℤ}
use buddy_bet_v.Settlement.Amounts.{compute_winner_amounts, compute_no_winner_amounts}

-- a fee rate from 0 to 1
abbrev pub IsRate : Decimal → Type 0
IsRate rate = (pos 0 ≤ℤ rate) × (rate ≤ℤ pos (10 ^ 6))

mul_le : (m r : ℕ) → r ≤ 10 ^ 6 → m * r ≤ m * 10 ^ 6
mul_le m r h = grind arith

fee-le : (x m : ℕ) → x ≤ m * 10 ^ 6 → m % cent ≡ 0 → nearest_cent (cent * 10 ^ 6) x ≤ m
fee-le x m h k = omega arith

fee-cents : (x : ℕ) → nearest_cent (cent * 10 ^ 6) x % cent ≡ 0
fee-cents x = omega arith

pub safe_multiply-bounds :
    (value rate : Decimal)
    → IsCents value
    → pos 0 ≤ℤ value
    → IsRate rate
    → IsCents (safe_multiply value rate)
      × (pos 0 ≤ℤ safe_multiply value rate)
      × (safe_multiply value rate ≤ℤ value)
unfolding safe_multiply ◌*ℤ◌
safe_multiply-bounds (pos m) (pos r) cents nonneg bounds =
    ground (arith, mul_le m r, fee-le (m * r) m, fee-cents (m * r))
safe_multiply-bounds (pos m) (negsuc r) cents nonneg bounds = absurd (omega arith)
safe_multiply-bounds (negsuc m) rate cents nonneg bounds = absurd (omega arith)

module _ (stake rate : Decimal) (cents : IsCents stake) (nonneg : pos 0 ≤ℤ stake)
    (bounds : IsRate rate) where
  pub compute_winner_amounts_lem :
      let (payout, fee) = compute_winner_amounts stake rate in
      (payout ≡ (stake +ℤ stake) -ℤ fee) × (pos 0 ≤ℤ fee) × (fee ≤ℤ stake +ℤ stake) × IsCents fee
  unfolding compute_winner_amounts
  compute_winner_amounts_lem =
      let pool : Decimal = stake +ℤ stake in
      let pool_cents : IsCents pool = IsCents-+ℤ stake stake cents cents in
      let b = safe_multiply-bounds pool rate pool_cents (omega int_laws) bounds in
      rw (safe_add-cents stake stake cents cents)
        (safe_subtract-cents pool (safe_multiply pool rate) pool_cents b.0, b.1, b.2, b.0)

  pub compute_no_winner_amounts_lem :
      let (refund, fee) = compute_no_winner_amounts stake rate in
      (refund ≡ stake -ℤ fee) × (pos 0 ≤ℤ fee) × (fee ≤ℤ stake) × IsCents fee
  unfolding compute_no_winner_amounts
  compute_no_winner_amounts_lem =
      let b = safe_multiply-bounds stake rate cents nonneg bounds in
      (safe_subtract-cents stake (safe_multiply stake rate) cents b.0, b.1, b.2, b.0)

  -- For a stake of whole cents, not negative, and a fee rate from 0 to 1: the winner's payout and the
  -- platform fee add up to the two stakes, and neither is negative; and on the path with no winner
  -- the refund and the fee of a user add up to the stake, and neither is negative.
  pub amounts_add_up :
      let (payout, fee) = compute_winner_amounts stake rate in
      let (refund, fee_per_user) = compute_no_winner_amounts stake rate in
      (payout +ℤ fee ≡ stake +ℤ stake)
      × (pos 0 ≤ℤ payout)
      × (pos 0 ≤ℤ fee)
      × (refund +ℤ fee_per_user ≡ stake)
      × (pos 0 ≤ℤ refund)
      × (pos 0 ≤ℤ fee_per_user)
  amounts_add_up =
      let (p, f0, f1, _) = compute_winner_amounts_lem in
      let (q, g0, g1, _) = compute_no_winner_amounts_lem in
      (
        rw p (omega int_laws),
        rw p (omega int_laws),
        f0,
        rw q (omega int_laws),
        rw q (omega int_laws),
        g0,
      )
