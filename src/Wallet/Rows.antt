-- ===== src/Wallet/Rows.antt =====
-- Reading and writing the row of a wallet that exists, and of one that does not.
use buddy_bet_v.Prelude.{ℕ-eq, ◌≡◌, Option, none, some, arith}
use buddy_bet_v.Exec.{ok, err, not_found}
use buddy_bet_v.Table.{update, find-set, update-found, find-key}
use buddy_bet_v.Money.{Decimal}
use buddy_bet_v.Models.{Uuid, Wallet, Database}
use buddy_bet_v.Wallet.{
  user_of, wallet_of, with_balances, get_by_user_id_for_update, update_balances,
}

module _ (user : Uuid) (db : Database) where
  pub get-found :
      (wallet : Wallet)
      → wallet_of user db ≡ some wallet
      → get_by_user_id_for_update user db ≡ (ok wallet, db)
  unfolding get_by_user_id_for_update
  get-found wallet found = rw found

  pub get-missing :
      wallet_of user db ≡ none → get_by_user_id_for_update user db ≡ (err not_found, db)
  unfolding get_by_user_id_for_update
  get-missing missing = rw missing

  pub user_of-found : (wallet : Wallet) → wallet_of user db ≡ some wallet → wallet.user_id ≡ user
  user_of-found wallet found = find-key user_of user wallet db.wallets found

-- The database after one wallet row was written.
abbrev pub set_wallet : Uuid → Wallet → Database → Database
set_wallet user wallet db = record db { wallets = update user_of user (λ _. wallet) db.wallets }

pub update_balances-found :
    (user : Uuid) (av lk : Option Decimal) (wallet : Wallet) (db : Database)
    → wallet_of user db ≡ some wallet
    → update_balances wallet av lk db
      ≡ (ok (with_balances av lk wallet), set_wallet user (with_balances av lk wallet) db)
unfolding update_balances
update_balances-found user av lk wallet db found =
    let same = user_of-found user db wallet found in
    rw
      (
        same,
        update-found user_of user (with_balances av lk) wallet db.wallets found,
        find-set user_of user user (with_balances av lk wallet) wallet db.wallets found same,
      )
      (ground arith)
