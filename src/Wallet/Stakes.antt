-- ===== src/Wallet/Stakes.antt =====
-- The stakes of a bet: `lock_stake`, `unlock_stake`, `void_refund`, `credit_available` and
-- `apply_balance_update` of app/services/wallet_service.py.
use buddy_bet_v.Prelude.{Option, none, some}
use buddy_bet_v.Prelude.Int.{ltb_ℤ}
use buddy_bet_v.Exec.{Exec, pure, raise_if, insufficient_funds, ◌>>=◌, ◌>>◌}
use buddy_bet_v.Money.{Decimal, safe_add, safe_subtract, verify_non_negative}
use buddy_bet_v.Models.{Uuid, Wallet, Database}
use buddy_bet_v.Ledger.{write_stake_lock, write_stake_unlock, write_void_refund}
use buddy_bet_v.Wallet.{get_by_user_id_for_update, update_balances}

unfoldable pub lock_stake : Uuid → Decimal → Uuid → Exec Database Wallet
unfolding verify_non_negative write_stake_lock
lock_stake user_id amount bet_id = do
  wallet ← get_by_user_id_for_update user_id
  raise_if (ltb_ℤ wallet.available_balance amount) insufficient_funds
  let new_available = safe_subtract wallet.available_balance amount
  let new_locked = safe_add wallet.locked_balance amount
  verify_non_negative new_available
  verify_non_negative new_locked
  wallet' ← update_balances wallet (some new_available) (some new_locked)
  write_stake_lock wallet' amount bet_id
  pure wallet'

unfoldable pub unlock_stake : Uuid → Decimal → Uuid → Exec Database Wallet
unfolding verify_non_negative write_stake_unlock
unlock_stake user_id amount bet_id = do
  wallet ← get_by_user_id_for_update user_id
  let new_locked = safe_subtract wallet.locked_balance amount
  let new_available = safe_add wallet.available_balance amount
  verify_non_negative new_locked
  verify_non_negative new_available
  wallet' ← update_balances wallet (some new_available) (some new_locked)
  write_stake_unlock wallet' amount bet_id
  pure wallet'

unfoldable pub void_refund : Uuid → Decimal → Uuid → Exec Database Wallet
unfolding verify_non_negative write_void_refund
void_refund user_id amount bet_id = do
  wallet ← get_by_user_id_for_update user_id
  let new_locked = safe_subtract wallet.locked_balance amount
  let new_available = safe_add wallet.available_balance amount
  verify_non_negative new_locked
  verify_non_negative new_available
  wallet' ← update_balances wallet (some new_available) (some new_locked)
  write_void_refund wallet' amount bet_id
  pure wallet'

unfoldable pub credit_available : Uuid → Decimal → Exec Database Wallet
unfolding verify_non_negative
credit_available user_id amount = do
  wallet ← get_by_user_id_for_update user_id
  let new_available = safe_add wallet.available_balance amount
  verify_non_negative new_available
  update_balances wallet (some new_available) none

abbrev verify_if_given : Option Decimal → Exec Database (Unit {0})
verify_if_given none = pure tt
verify_if_given (some value) = verify_non_negative value

-- `apply_balance_update`, for a row that is locked already
abbrev apply_balance_update : Wallet → Option Decimal → Option Decimal → Exec Database Wallet
apply_balance_update wallet available_balance locked_balance = do
  verify_if_given available_balance
  verify_if_given locked_balance
  update_balances wallet available_balance locked_balance
