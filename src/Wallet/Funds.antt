-- ===== src/Wallet/Funds.antt =====
-- Generic holds, deposits and withdrawals: the methods of app/services/wallet_service.py that check
-- that the amount is positive.
use buddy_bet_v.Prelude.{none, some}
use buddy_bet_v.Prelude.Int.{pos, ltb_ℤ, leb_ℤ}
use buddy_bet_v.Exec.{Exec, pure, raise_if, validation, insufficient_funds, ◌>>=◌, ◌>>◌}
use buddy_bet_v.Money.{Decimal, safe_add, safe_subtract, verify_non_negative}
use buddy_bet_v.Models.{Uuid, Wallet, Database}
use buddy_bet_v.Ledger.{
  write_stake_lock, write_stake_unlock, write_deposit_credit, write_withdrawal_hold,
  write_withdrawal_release, write_withdrawal_debit,
}
use buddy_bet_v.Wallet.{get_by_user_id_for_update, update_balances}

unfoldable pub lock_funds : Uuid → Decimal → Uuid → Exec Database Wallet
unfolding verify_non_negative write_stake_lock
lock_funds user_id amount reference_id = do
  raise_if (leb_ℤ amount (pos 0)) validation
  wallet ← get_by_user_id_for_update user_id
  raise_if (ltb_ℤ wallet.available_balance amount) insufficient_funds
  let new_available = safe_subtract wallet.available_balance amount
  let new_locked = safe_add wallet.locked_balance amount
  verify_non_negative new_available
  verify_non_negative new_locked
  wallet' ← update_balances wallet (some new_available) (some new_locked)
  write_stake_lock wallet' amount reference_id
  pure wallet'

unfoldable pub unlock_funds : Uuid → Decimal → Uuid → Exec Database Wallet
unfolding verify_non_negative write_stake_unlock
unlock_funds user_id amount reference_id = do
  raise_if (leb_ℤ amount (pos 0)) validation
  wallet ← get_by_user_id_for_update user_id
  raise_if (ltb_ℤ wallet.locked_balance amount) insufficient_funds
  let new_locked = safe_subtract wallet.locked_balance amount
  let new_available = safe_add wallet.available_balance amount
  verify_non_negative new_locked
  verify_non_negative new_available
  wallet' ← update_balances wallet (some new_available) (some new_locked)
  write_stake_unlock wallet' amount reference_id
  pure wallet'

unfoldable pub credit_deposit : Uuid → Decimal → Uuid → Exec Database Wallet
unfolding verify_non_negative write_deposit_credit
credit_deposit user_id amount deposit_id = do
  raise_if (leb_ℤ amount (pos 0)) validation
  wallet ← get_by_user_id_for_update user_id
  let new_available = safe_add wallet.available_balance amount
  verify_non_negative new_available
  wallet' ← update_balances wallet (some new_available) none
  write_deposit_credit wallet' amount deposit_id
  pure wallet'

unfoldable pub hold_withdrawal : Uuid → Decimal → Uuid → Exec Database Wallet
unfolding verify_non_negative write_withdrawal_hold
hold_withdrawal user_id amount withdrawal_id = do
  raise_if (leb_ℤ amount (pos 0)) validation
  wallet ← get_by_user_id_for_update user_id
  raise_if (ltb_ℤ wallet.available_balance amount) insufficient_funds
  let new_available = safe_subtract wallet.available_balance amount
  let new_locked = safe_add wallet.locked_balance amount
  verify_non_negative new_available
  verify_non_negative new_locked
  wallet' ← update_balances wallet (some new_available) (some new_locked)
  write_withdrawal_hold wallet' amount withdrawal_id
  pure wallet'

unfoldable pub release_withdrawal_hold : Uuid → Decimal → Uuid → Exec Database Wallet
unfolding verify_non_negative write_withdrawal_release
release_withdrawal_hold user_id amount withdrawal_id = do
  raise_if (leb_ℤ amount (pos 0)) validation
  wallet ← get_by_user_id_for_update user_id
  raise_if (ltb_ℤ wallet.locked_balance amount) insufficient_funds
  let new_locked = safe_subtract wallet.locked_balance amount
  let new_available = safe_add wallet.available_balance amount
  verify_non_negative new_locked
  verify_non_negative new_available
  wallet' ← update_balances wallet (some new_available) (some new_locked)
  write_withdrawal_release wallet' amount withdrawal_id
  pure wallet'

unfoldable pub finalize_withdrawal_debit : Uuid → Decimal → Uuid → Exec Database Wallet
unfolding verify_non_negative write_withdrawal_debit
finalize_withdrawal_debit user_id amount withdrawal_id = do
  raise_if (leb_ℤ amount (pos 0)) validation
  wallet ← get_by_user_id_for_update user_id
  raise_if (ltb_ℤ wallet.locked_balance amount) insufficient_funds
  let new_locked = safe_subtract wallet.locked_balance amount
  verify_non_negative new_locked
  wallet' ← update_balances wallet none (some new_locked)
  write_withdrawal_debit wallet' amount withdrawal_id
  pure wallet'
