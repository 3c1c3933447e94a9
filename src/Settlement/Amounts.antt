-- ===== src/Settlement/Amounts.antt =====
-- The amounts of the two settlement paths (app/services/settlement_service.py).
use buddy_bet_v.Money.{Decimal, safe_add, safe_subtract, safe_multiply}

-- The payout of the winner and the fee.
unfoldable pub compute_winner_amounts : Decimal → Decimal → Decimal × Decimal
compute_winner_amounts stake_amount winner_fee_rate =
    let total_pool = safe_add stake_amount stake_amount in
    let platform_fee = safe_multiply total_pool winner_fee_rate in
    let winner_payout = safe_subtract total_pool platform_fee in (winner_payout, platform_fee)

-- The refund and the fee of each user.
unfoldable pub compute_no_winner_amounts : Decimal → Decimal → Decimal × Decimal
compute_no_winner_amounts stake_amount no_winner_fee_rate =
    let fee_per_user = safe_multiply stake_amount no_winner_fee_rate in
    let refund_per_user = safe_subtract stake_amount fee_per_user in (refund_per_user, fee_per_user)
