-- ===== src/Wallet/Calls.antt =====
-- The methods of the wallet service that pair a change of one wallet with ledger entries, as one type
-- of calls, and what every call keeps.
use buddy_bet_v.Prelude.{ℕ-eq, ◌≡◌, ◌⊎◌, List}
use buddy_bet_v.Prelude.Int.{pos, ◌+ℤ◌, ◌-ℤ◌}
use buddy_bet_v.Exec.{Exec}
use buddy_bet_v.Money.{Decimal}
use buddy_bet_v.Money.Cents.{IsCents}
use buddy_bet_v.Models.{Uuid, Wallet, LedgerEntry, Database}
use buddy_bet_v.Wallet.Posting.{Posted, AllGood}
use buddy_bet_v.Wallet.Reconcile.{
  IsReconciled, Nets, total_holdings, Posted-AllGood, Posted-IsReconciled, Posted-total,
}
use buddy_bet_v.Wallet.Nets.{
  stake_lock-Nets, stake_unlock-Nets, void_refund-Nets, deposit_credit-Nets, withdrawal_hold-Nets,
  withdrawal_release-Nets, withdrawal_debit-Nets,
}
use buddy_bet_v.Wallet.Stakes
use buddy_bet_v.Wallet.Funds
use buddy_bet_v.Wallet.StakeMoves.{
  stake_lock_entries, stake_unlock_entries, void_refund_entries, lock_stake-Posted,
  unlock_stake-Posted, void_refund-Posted,
}
use buddy_bet_v.Wallet.FundEntries.{
  deposit_credit_entries, withdrawal_hold_entries, withdrawal_release_entries,
  withdrawal_debit_entries,
}
use buddy_bet_v.Wallet.FundMoves.{
  lock_funds-Posted, unlock_funds-Posted, credit_deposit-Posted, hold_withdrawal-Posted,
  release_withdrawal_hold-Posted, finalize_withdrawal_debit-Posted,
}

pub data Method : Type 0 where
  lock_stake unlock_stake void_refund lock_funds unlock_funds : Method
  credit_deposit hold_withdrawal release_withdrawal_hold finalize_withdrawal_debit : Method

unfoldable pub perform : Method → Uuid → Decimal → Uuid → Exec Database Wallet
perform lock_stake = Stakes.lock_stake
perform unlock_stake = Stakes.unlock_stake
perform void_refund = Stakes.void_refund
perform lock_funds = Funds.lock_funds
perform unlock_funds = Funds.unlock_funds
perform credit_deposit = Funds.credit_deposit
perform hold_withdrawal = Funds.hold_withdrawal
perform release_withdrawal_hold = Funds.release_withdrawal_hold
perform finalize_withdrawal_debit = Funds.finalize_withdrawal_debit

-- What a method that returns adds to the two balances.
abbrev pub to_available : Method → Decimal → Decimal
to_available lock_stake amount = pos 0 -ℤ amount
to_available unlock_stake amount = amount
to_available void_refund amount = amount
to_available lock_funds amount = pos 0 -ℤ amount
to_available unlock_funds amount = amount
to_available credit_deposit amount = amount
to_available hold_withdrawal amount = pos 0 -ℤ amount
to_available release_withdrawal_hold amount = amount
to_available finalize_withdrawal_debit amount = pos 0

abbrev pub to_locked : Method → Decimal → Decimal
to_locked lock_stake amount = amount
to_locked unlock_stake amount = pos 0 -ℤ amount
to_locked void_refund amount = pos 0 -ℤ amount
to_locked lock_funds amount = amount
to_locked unlock_funds amount = pos 0 -ℤ amount
to_locked credit_deposit amount = pos 0
to_locked hold_withdrawal amount = amount
to_locked release_withdrawal_hold amount = pos 0 -ℤ amount
to_locked finalize_withdrawal_debit amount = pos 0 -ℤ amount

abbrev pub entries_of : Method → Decimal → Uuid → Wallet → List LedgerEntry
entries_of lock_stake = stake_lock_entries
entries_of unlock_stake = stake_unlock_entries
entries_of void_refund = void_refund_entries
entries_of lock_funds = stake_lock_entries
entries_of unlock_funds = stake_unlock_entries
entries_of credit_deposit = deposit_credit_entries
entries_of hold_withdrawal = withdrawal_hold_entries
entries_of release_withdrawal_hold = withdrawal_release_entries
entries_of finalize_withdrawal_debit = withdrawal_debit_entries

pub entries_of-Nets :
    (method : Method) (amount : Decimal) (reference_id : Uuid)
    → Nets
        (to_available method amount)
        (to_locked method amount)
        (entries_of method amount reference_id)
entries_of-Nets lock_stake = stake_lock-Nets
entries_of-Nets unlock_stake = stake_unlock-Nets
entries_of-Nets void_refund = void_refund-Nets
entries_of-Nets lock_funds = stake_lock-Nets
entries_of-Nets unlock_funds = stake_unlock-Nets
entries_of-Nets credit_deposit = deposit_credit-Nets
entries_of-Nets hold_withdrawal = withdrawal_hold-Nets
entries_of-Nets release_withdrawal_hold = withdrawal_release-Nets
entries_of-Nets finalize_withdrawal_debit = withdrawal_debit-Nets

pub perform-Posted :
    (method : Method) (user : Uuid) (amount : Decimal) (reference_id : Uuid) (db : Database)
    → AllGood db
    → IsCents amount
    → Posted user
        (to_available method amount)
        (to_locked method amount)
        (entries_of method amount reference_id)
        db
        (perform method user amount reference_id db)
unfolding perform
perform-Posted lock_stake = lock_stake-Posted
perform-Posted unlock_stake = unlock_stake-Posted
perform-Posted void_refund = void_refund-Posted
perform-Posted lock_funds = lock_funds-Posted
perform-Posted unlock_funds = unlock_funds-Posted
perform-Posted credit_deposit = credit_deposit-Posted
perform-Posted hold_withdrawal = hold_withdrawal-Posted
perform-Posted release_withdrawal_hold = release_withdrawal_hold-Posted
perform-Posted finalize_withdrawal_debit = finalize_withdrawal_debit-Posted

module _ (method : Method) (user : Uuid) (amount : Decimal) (reference_id : Uuid) (db : Database)
    (good : AllGood db) (cents : IsCents amount) where
  out :
      Posted user
        (to_available method amount)
        (to_locked method amount)
        (entries_of method amount reference_id)
        db
        (perform method user amount reference_id db)
  out = perform-Posted method user amount reference_id db good cents

  -- From a database whose balances are whole cents and not negative, every method of
  -- `Method` called with an amount in whole cents, whether it returns or raises, leaves balances that
  -- are whole cents and not negative.
  pub perform-AllGood : AllGood (perform method user amount reference_id db).1
  perform-AllGood = Posted-AllGood user _ _ _ db _ out good

  -- From a database whose balances are whole cents, not negative, and the sums of the signed ledger
  -- entries, each of the nine methods of the wallet service that move one wallet's balances and
  -- write the ledger entries for it (lock_stake, unlock_stake, void_refund, lock_funds,
  -- unlock_funds, credit_deposit, hold_withdrawal, release_withdrawal_hold and
  -- finalize_withdrawal_debit), called with whole cents, whether it returns or raises, leaves
  -- balances that are these sums.
  pub perform-IsReconciled :
      IsReconciled db → IsReconciled (perform method user amount reference_id db).1
  perform-IsReconciled =
      Posted-IsReconciled user _ _ _ db _ out (entries_of-Nets method amount reference_id)

  -- From a database whose balances are whole cents and not negative, every method of
  -- `Method` called with an amount in whole cents leaves the database as it was, or changes the sum of
  -- all balances by what the method moves in and out: nothing, but for a deposit (the amount) and a
  -- final debit (minus the amount).
  pub perform-total :
      ((perform method user amount reference_id db).1 ≡ db)
      ⊎ (total_holdings (perform method user amount reference_id db).1
          ≡ total_holdings db +ℤ (to_available method amount +ℤ to_locked method amount))
  perform-total = Posted-total user _ _ _ db _ out
