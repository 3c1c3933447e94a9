-- ===== src/Settlement/NoWinner.antt =====
-- `_settle_no_winner` of app/services/settlement_service.py.
use buddy_bet_v.Prelude.{some}
use buddy_bet_v.Prelude.Int.{ltb_ℤ}
use buddy_bet_v.Exec.{Exec, pure, raise_if, insufficient_funds, ◌>>=◌, ◌>>◌}
use buddy_bet_v.Money.{Decimal, safe_add, safe_subtract, verify_non_negative}
use buddy_bet_v.Models.{Uuid, Database}
use buddy_bet_v.Ledger.{write_settlement_no_winner}
use buddy_bet_v.Wallet.{update_balances}
use buddy_bet_v.Wallet.Transfer.{get_both_for_update}

unfoldable pub settle_no_winner :
    Uuid → Uuid → Decimal → Decimal → Decimal → Uuid → Exec Database (Unit {0})
settle_no_winner creator_id opponent_id stake_amount fee_per_user refund_per_user bet_id = do
  (creator_wallet, opponent_wallet) ← get_both_for_update creator_id opponent_id
  raise_if (ltb_ℤ creator_wallet.locked_balance stake_amount) insufficient_funds
  raise_if (ltb_ℤ opponent_wallet.locked_balance stake_amount) insufficient_funds
  let creator_new_locked = safe_subtract creator_wallet.locked_balance stake_amount
  let creator_new_available = safe_add creator_wallet.available_balance refund_per_user
  let opponent_new_locked = safe_subtract opponent_wallet.locked_balance stake_amount
  let opponent_new_available = safe_add opponent_wallet.available_balance refund_per_user
  verify_non_negative creator_new_locked
  verify_non_negative creator_new_available
  verify_non_negative opponent_new_locked
  verify_non_negative opponent_new_available
  creator_wallet' ←
      update_balances creator_wallet (some creator_new_available) (some creator_new_locked)
  opponent_wallet' ←
      update_balances opponent_wallet (some opponent_new_available) (some opponent_new_locked)
  write_settlement_no_winner creator_wallet' opponent_wallet' fee_per_user refund_per_user bet_id
  pure tt
