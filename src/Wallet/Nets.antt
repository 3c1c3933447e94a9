-- ===== src/Wallet/Nets.antt =====
-- The sums of the entries of each operation.
use buddy_bet_v.Prelude.{ℕ-eq}
use buddy_bet_v.Prelude.Int.{pos, ◌-ℤ◌, int_laws}
use buddy_bet_v.Money.{Decimal}
use buddy_bet_v.Models.{Uuid}
use buddy_bet_v.Models.Enums.{available, locked}
use buddy_bet_v.Wallet.Reconcile.{Nets}
use buddy_bet_v.Wallet.StakeMoves.{stake_lock_entries, stake_unlock_entries, void_refund_entries}
use buddy_bet_v.Wallet.FundEntries.{
  deposit_credit_entries, withdrawal_hold_entries, withdrawal_release_entries,
  withdrawal_debit_entries,
}

module _ (amount : Decimal) (reference_id : Uuid) where
  pub stake_lock-Nets : Nets (pos 0 -ℤ amount) amount (stake_lock_entries amount reference_id)
  stake_lock-Nets wallet user available rest = grind int_laws
  stake_lock-Nets wallet user locked rest = grind int_laws

  pub stake_unlock-Nets : Nets amount (pos 0 -ℤ amount) (stake_unlock_entries amount reference_id)
  stake_unlock-Nets wallet user available rest = grind int_laws
  stake_unlock-Nets wallet user locked rest = grind int_laws

  pub void_refund-Nets : Nets amount (pos 0 -ℤ amount) (void_refund_entries amount reference_id)
  void_refund-Nets wallet user available rest = grind int_laws
  void_refund-Nets wallet user locked rest = grind int_laws

  pub deposit_credit-Nets : Nets amount (pos 0) (deposit_credit_entries amount reference_id)
  deposit_credit-Nets wallet user available rest = grind int_laws
  deposit_credit-Nets wallet user locked rest = grind int_laws

  pub withdrawal_hold-Nets :
      Nets (pos 0 -ℤ amount) amount (withdrawal_hold_entries amount reference_id)
  withdrawal_hold-Nets wallet user available rest = grind int_laws
  withdrawal_hold-Nets wallet user locked rest = grind int_laws

  pub withdrawal_release-Nets :
      Nets amount (pos 0 -ℤ amount) (withdrawal_release_entries amount reference_id)
  withdrawal_release-Nets wallet user available rest = grind int_laws
  withdrawal_release-Nets wallet user locked rest = grind int_laws

  pub withdrawal_debit-Nets :
      Nets (pos 0) (pos 0 -ℤ amount) (withdrawal_debit_entries amount reference_id)
  withdrawal_debit-Nets wallet user available rest = grind int_laws
  withdrawal_debit-Nets wallet user locked rest = grind int_laws
