-- ===== src/Wallet.antt =====
-- app/repositories/wallet_repository.py, and what the methods of app/services/wallet_service.py in
-- the modules below share. A session sees its own writes, and a wallet object is the session's one
-- copy of its row, so a write names the row.
pub mod HalfCents
pub mod Stakes
pub mod Funds
pub mod Transfer
pub mod Rows
pub mod Posting
pub mod Tails
pub mod StakeMoves
pub mod FundEntries
pub mod FundMoves
pub mod Reconcile
pub mod Nets
pub mod Calls
pub mod Pair
pub mod PairRows
pub mod TransferMoves
use buddy_bet_v.Prelude.{ℕ-eq, ◌+◌, Option, none, some}
use buddy_bet_v.Exec.{Exec, gets, modify, some_or_raise, not_found, ◌>>=◌, ◌>>◌}
use buddy_bet_v.Table.{find, update}
use buddy_bet_v.Money.{Decimal}
use buddy_bet_v.Models.{Uuid, Wallet, Database}

-- The column by which wallets are found (unique in the table).
abbrev pub user_of : Wallet → Uuid
user_of wallet = wallet.user_id

abbrev pub wallet_of : Uuid → Database → Option Wallet
wallet_of user_id db = find user_of user_id db.wallets

unfoldable pub get_by_user_id_for_update : Uuid → Exec Database Wallet
get_by_user_id_for_update user_id = do
  wallet ← gets (wallet_of user_id)
  some_or_raise not_found wallet

-- `get_by_user_id_or_404`, which does not lock the row
unfoldable pub get_by_user_id_or_404 : Uuid → Exec Database Wallet
get_by_user_id_or_404 user_id = do wallet ← gets (wallet_of user_id); some_or_raise not_found wallet

abbrev pub or_keep : Option Decimal → Decimal → Decimal
or_keep none old = old
or_keep (some value) old = value

-- The assignments of `update_balances`; `none` leaves a balance unchanged.
abbrev pub with_balances : Option Decimal → Option Decimal → Wallet → Wallet
with_balances available_balance locked_balance wallet = record wallet {
  available_balance = or_keep available_balance wallet.available_balance;
  locked_balance = or_keep locked_balance wallet.locked_balance;
  version = wallet.version + 1;
}

-- The flush writes the row, and the refresh reads it again.
unfoldable pub update_balances : Wallet → Option Decimal → Option Decimal → Exec Database Wallet
unfolding get_by_user_id_for_update
update_balances wallet available_balance locked_balance = do
  modify (λ db. record db {
    wallets =
        update user_of wallet.user_id (with_balances available_balance locked_balance) db.wallets;
  })
  get_by_user_id_for_update wallet.user_id
