-- ===== src/Wallet/Posting.antt =====
-- What a wallet operation promises: it raises and leaves the database alone, or it moves the two
-- balances of one wallet by known amounts and inserts ledger entries that show the new balances.
use buddy_bet_v.Prelude.{ℕ-eq, ◌≡◌, some, List, ◌++◌}
use buddy_bet_v.Prelude.Int.{pos, ◌+ℤ◌, ◌≤ℤ◌}
use buddy_bet_v.Exec.{Result, ok, err, Exec}
use buddy_bet_v.Table.{update}
use buddy_bet_v.Money.{Decimal}
use buddy_bet_v.Money.Cents.{IsCents}
use buddy_bet_v.Models.{Uuid, Wallet, LedgerEntry, Database}
use buddy_bet_v.Models.Enums.{BalanceField, available, locked}
use buddy_bet_v.Wallet.{user_of, wallet_of, with_balances}

abbrev pub balance : BalanceField → Wallet → Decimal
balance available wallet = wallet.available_balance
balance locked wallet = wallet.locked_balance

-- The balances are what the columns can hold: whole cents that are not negative.
abbrev pub IsGood : Wallet → Type 0
IsGood wallet =
    IsCents wallet.available_balance
    × IsCents wallet.locked_balance
    × (pos 0 ≤ℤ wallet.available_balance)
    × (pos 0 ≤ℤ wallet.locked_balance)

abbrev pub AllGood : Database → Type 0
AllGood db = (user : Uuid) (wallet : Wallet) → wallet_of user db ≡ some wallet → IsGood wallet

-- The wallet after its balances moved.
abbrev pub moved : Decimal → Decimal → Wallet → Wallet
moved to_available to_locked wallet =
    with_balances (some (wallet.available_balance +ℤ to_available))
      (some (wallet.locked_balance +ℤ to_locked)) wallet

-- The database after one wallet row was written and entries were inserted.
abbrev pub post : Uuid → Wallet → List LedgerEntry → Database → Database
post user wallet entries db = record db {
  wallets = update user_of user (λ _. wallet) db.wallets;
  ledger_entries = entries ++ db.ledger_entries;
}

-- The outcome of an operation that moves the balances of `user`.
abbrev pub Posted :
    Uuid
    → Decimal
    → Decimal
    → (Wallet → List LedgerEntry)
    → Database
    → Result Wallet × Database
    → Type 0
Posted user to_available to_locked entries db (err e, db') = db' ≡ db
Posted user to_available to_locked entries db (ok wallet', db') =
    (wallet : Wallet) × (wallet_of user db ≡ some wallet)
    × (wallet' ≡ moved to_available to_locked wallet)
    × IsGood wallet'
    × (db' ≡ post user wallet' (entries wallet') db)

-- The entries that a writer of the ledger inserts.
abbrev pub Inserts : (Wallet → Exec Database (Unit {0})) → (Wallet → List LedgerEntry) → Type 0
Inserts writer entries =
    (wallet : Wallet) (db : Database)
    → writer wallet db ≡ (ok tt, record db { ledger_entries = entries wallet ++ db.ledger_entries })
