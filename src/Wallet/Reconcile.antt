-- ===== src/Wallet/Reconcile.antt =====
-- Balances against what the ledger entries of a wallet add up to.
use buddy_bet_v.Prelude.{
  ℕ-eq, ◌≡◌, ◌⊎◌, refl, inl, inr, some, List, ◌++◌, arith, ◌==◌, if◌then◌else◌,
}
use buddy_bet_v.Prelude.Int.{
  pos, ◌+ℤ◌, ◌-ℤ◌, int_laws, add_zero, add_sub_cancel, sub_add_cancel, shift,
}
use buddy_bet_v.Exec.{Result, ok, err}
use buddy_bet_v.Table.{find-set, total, total-update}
use buddy_bet_v.Money.{Decimal}
use buddy_bet_v.Models.{Uuid, Wallet, LedgerEntry, Database}
use buddy_bet_v.Models.Enums.{BalanceField, available, locked}
use buddy_bet_v.Ledger.{ledger_balance}
use buddy_bet_v.Wallet.{user_of, wallet_of}
use buddy_bet_v.Wallet.Rows.{user_of-found}
use buddy_bet_v.Wallet.Posting.{Posted, AllGood, IsGood, balance, moved, post}

-- Every balance of every wallet is the sum of the signed amounts of its ledger entries.
abbrev pub IsReconciled : Database → Type 0
IsReconciled db =
    (user : Uuid) (field : BalanceField) (wallet : Wallet)
    → wallet_of user db ≡ some wallet
    → balance field wallet ≡ ledger_balance user field db.ledger_entries

abbrev pub change : BalanceField → Decimal → Decimal → Decimal
change available to_available to_locked = to_available
change locked to_available to_locked = to_locked

-- The entries for a wallet add up to the change of its balances, and are about no other user.
abbrev pub Nets : Decimal → Decimal → (Wallet → List LedgerEntry) → Type 0
Nets to_available to_locked entries =
    (wallet : Wallet) (user : Uuid) (field : BalanceField) (rest : List LedgerEntry)
    → ledger_balance user field (entries wallet ++ rest)
      ≡ ledger_balance user field rest
        +ℤ (if user == wallet.user_id then change field to_available to_locked else pos 0)

balance-moved :
    (field : BalanceField) (to_available to_locked : Decimal) (wallet : Wallet)
    → balance field (moved to_available to_locked wallet)
      ≡ balance field wallet +ℤ change field to_available to_locked
balance-moved available to_available to_locked wallet = refl
balance-moved locked to_available to_locked wallet = refl

pub change-moved :
    (field : BalanceField) (to_available to_locked : Decimal) (wallet wallet' : Wallet)
    → wallet' ≡ moved to_available to_locked wallet
    → balance field wallet' -ℤ balance field wallet ≡ change field to_available to_locked
change-moved field to_available to_locked wallet wallet' is_moved =
    rw (is_moved, balance-moved field to_available to_locked wallet)
      (sub_add_cancel (balance field wallet) (change field to_available to_locked))

-- What all wallets hold together, in both balances.
abbrev pub holdings : Wallet → Decimal
holdings wallet = wallet.available_balance +ℤ wallet.locked_balance

abbrev pub total_holdings : Database → Decimal
total_holdings db = total holdings db.wallets

-- One row written: who sees it, and what it does to the invariants.
module _ (user : Uuid) (wallet wallet' : Wallet) (entries : List LedgerEntry) (db : Database)
    (found : wallet_of user db ≡ some wallet) (key : wallet'.user_id ≡ user) where
  pub wallet_of-post :
      (j : Uuid)
      → wallet_of j (post user wallet' entries db)
        ≡ (if j == user then some wallet' else wallet_of j db)
  wallet_of-post j = find-set user_of j user wallet' wallet db.wallets found key

  pub post-AllGood : IsGood wallet' → AllGood db → AllGood (post user wallet' entries db)
  post-AllGood good all j x h = ground (arith, wallet_of-post j, all j x)

  pub post-IsReconciled :
      ((j : Uuid) (field : BalanceField)
        → ledger_balance j field (entries ++ db.ledger_entries)
          ≡ ledger_balance j field db.ledger_entries
            +ℤ (if j == user then balance field wallet' -ℤ balance field wallet else pos 0))
      → IsReconciled db
      → IsReconciled (post user wallet' entries db)
  post-IsReconciled nets all j field x h = ground (
    arith,
    wallet_of-post j,
    nets j field,
    all j field wallet,
    all j field x,
    add_sub_cancel (balance field wallet) (balance field wallet'),
    add_zero (ledger_balance j field db.ledger_entries),
  )

  pub total-post :
      total_holdings (post user wallet' entries db) +ℤ holdings wallet
      ≡ total_holdings db +ℤ holdings wallet'
  total-post = total-update user_of holdings user (λ _. wallet') wallet db.wallets found

module _ (user : Uuid) (to_available to_locked : Decimal) (entries : Wallet → List LedgerEntry)
    (db : Database) where
  pub Posted-AllGood :
      (out : Result Wallet × Database)
      → Posted user to_available to_locked entries db out
      → AllGood db
      → AllGood out.1
  Posted-AllGood (err e, db') same good = rw same good
  Posted-AllGood (ok w', db') (w, found, w'_is, w'_good, db'_is) good = rw db'_is (
      post-AllGood user w w' (entries w') db found (rw w'_is (user_of-found user db w found))
        w'_good good)

  pub Posted-IsReconciled :
      (out : Result Wallet × Database)
      → Posted user to_available to_locked entries db out
      → Nets to_available to_locked entries
      → IsReconciled db
      → IsReconciled out.1
  Posted-IsReconciled (err e, db') same nets h = rw same h
  Posted-IsReconciled (ok w', db') (w, found, w'_is, w'_good, db'_is) nets h =
      let key : w'.user_id ≡ user = rw w'_is (user_of-found user db w found) in
      rw db'_is (
        post-IsReconciled user w w' (entries w') db found key
          (λ j field. ground (
            arith,
            nets w' j field db.ledger_entries,
            change-moved field to_available to_locked w w' w'_is,
          ))
          h)

  pub Posted-total :
      (out : Result Wallet × Database)
      → Posted user to_available to_locked entries db out
      → (out.1 ≡ db) ⊎ (total_holdings out.1 ≡ total_holdings db +ℤ (to_available +ℤ to_locked))
  Posted-total (err e, db') same = inl same
  Posted-total (ok w', db') (w, found, w'_is, w'_good, db'_is) =
      let key : w'.user_id ≡ user = rw w'_is (user_of-found user db w found) in
      inr (
        rw db'_is (
          shift (total_holdings db) _ (holdings w) (holdings w') (to_available +ℤ to_locked)
            (total-post user w w' (entries w') db found key) (rw w'_is (omega int_laws))))
