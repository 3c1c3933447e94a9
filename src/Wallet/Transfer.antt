-- ===== src/Wallet/Transfer.antt =====
-- `transfer_locked_funds` of app/services/wallet_service.py: the winner's path of a settlement.
use buddy_bet_v.Prelude.{none, some, if◌then◌else◌, leb}
use buddy_bet_v.Prelude.Int.{pos, ltb_ℤ, leb_ℤ}
use buddy_bet_v.Exec.{Exec, pure, raise_if, validation, insufficient_funds, ◌>>=◌, ◌>>◌}
use buddy_bet_v.Money.{Decimal, safe_add, safe_subtract, verify_non_negative}
use buddy_bet_v.Models.{Uuid, Wallet, Database}
use buddy_bet_v.Ledger.{write_settlement_winner}
use buddy_bet_v.Wallet.{get_by_user_id_for_update, update_balances}

-- Both rows are locked in the order of their ids, whichever is asked for first.
unfoldable pub get_both_for_update : Uuid → Uuid → Exec Database (Wallet × Wallet)
get_both_for_update first_id second_id =
    if leb first_id second_id
    then (do
      first ← get_by_user_id_for_update first_id
      second ← get_by_user_id_for_update second_id
      pure (first, second))
    else (do
      second ← get_by_user_id_for_update second_id
      first ← get_by_user_id_for_update first_id
      pure (first, second))

unfoldable pub transfer_locked_funds :
    Uuid → Uuid → Decimal → Decimal → Uuid → Exec Database (Wallet × Wallet)
unfolding write_settlement_winner
transfer_locked_funds winner_id loser_id amount fee bet_id = do
  raise_if (leb_ℤ amount (pos 0)) validation
  raise_if (ltb_ℤ fee (pos 0)) validation
  let total_pool = safe_add amount amount
  let winner_payout = safe_subtract total_pool fee
  raise_if (leb_ℤ winner_payout (pos 0)) validation
  (winner_wallet, loser_wallet) ← get_both_for_update winner_id loser_id
  raise_if (ltb_ℤ winner_wallet.locked_balance amount) insufficient_funds
  raise_if (ltb_ℤ loser_wallet.locked_balance amount) insufficient_funds
  let winner_new_locked = safe_subtract winner_wallet.locked_balance amount
  let winner_new_available = safe_add winner_wallet.available_balance winner_payout
  let loser_new_locked = safe_subtract loser_wallet.locked_balance amount
  verify_non_negative winner_new_locked
  verify_non_negative winner_new_available
  verify_non_negative loser_new_locked
  winner_wallet' ←
      update_balances winner_wallet (some winner_new_available) (some winner_new_locked)
  loser_wallet' ← update_balances loser_wallet none (some loser_new_locked)
  write_settlement_winner winner_wallet' loser_wallet' amount winner_payout bet_id
  pure (winner_wallet', loser_wallet')
