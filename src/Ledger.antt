-- ===== src/Ledger.antt =====
-- app/services/ledger_service.py and app/repositories/ledger_repository.py: the entries that each
-- wallet operation inserts, and the view of the ledger that restores the balances.
use buddy_bet_v.Prelude.{ℕ-eq, Bool, true, false, List, ◌∷◌, ◌&&◌, ◌==◌, if◌then◌else◌}
use buddy_bet_v.Prelude.Int.{pos, ◌-ℤ◌}
use buddy_bet_v.Exec.{Exec, modify, ◌>>◌}
use buddy_bet_v.Table.{total}
use buddy_bet_v.Money.{Decimal}
use buddy_bet_v.Models.{Uuid, Wallet, LedgerEntry, Database}
use buddy_bet_v.Models.Enums.{
  LedgerEntryType, BalanceField, LedgerDirection, LedgerReferenceType, available, locked, credit,
  debit,
}

-- `create_entry`: the ledger only takes inserts.
unfoldable pub create_entry : LedgerEntry → Exec Database (Unit {0})
create_entry entry = modify (λ db. record db { ledger_entries = entry ∷ db.ledger_entries })

-- The fields that every writer fills from the updated wallet, the two balances after among them.
abbrev pub entry_for :
    Wallet
    → LedgerEntryType
    → BalanceField
    → LedgerDirection
    → Decimal
    → LedgerReferenceType
    → Uuid
    → LedgerEntry
entry_for wallet entry_type field direction amount reference_type reference_id = record {
  user_id = wallet.user_id;
  wallet_id = wallet.id;
  entry_type = entry_type;
  balance_field = field;
  direction = direction;
  amount = amount;
  reference_type = reference_type;
  reference_id = reference_id;
  available_balance_after = wallet.available_balance;
  locked_balance_after = wallet.locked_balance;
}

unfoldable pub write_stake_lock : Wallet → Decimal → Uuid → Exec Database (Unit {0})
unfolding create_entry
write_stake_lock wallet amount bet_id = do
  create_entry (
      entry_for wallet LedgerEntryType.stake_lock available debit amount LedgerReferenceType.bet
        bet_id)
  create_entry (
      entry_for wallet LedgerEntryType.stake_lock locked credit amount LedgerReferenceType.bet
        bet_id)

unfoldable pub write_stake_unlock : Wallet → Decimal → Uuid → Exec Database (Unit {0})
unfolding create_entry
write_stake_unlock wallet amount bet_id = do
  create_entry (
      entry_for wallet LedgerEntryType.stake_unlock locked debit amount
        LedgerReferenceType.cancellation bet_id)
  create_entry (
      entry_for wallet LedgerEntryType.stake_unlock available credit amount
        LedgerReferenceType.cancellation bet_id)

unfoldable pub write_void_refund : Wallet → Decimal → Uuid → Exec Database (Unit {0})
unfolding create_entry
write_void_refund wallet amount bet_id = do
  create_entry (
      entry_for wallet LedgerEntryType.void_refund locked debit amount LedgerReferenceType.void
        bet_id)
  create_entry (
      entry_for wallet LedgerEntryType.void_refund available credit amount LedgerReferenceType.void
        bet_id)

unfoldable pub write_settlement_winner :
    Wallet → Wallet → Decimal → Decimal → Uuid → Exec Database (Unit {0})
unfolding create_entry
write_settlement_winner winner_wallet loser_wallet stake_amount winner_payout bet_id = do
  create_entry (
      entry_for winner_wallet LedgerEntryType.settlement_deduct locked debit stake_amount
        LedgerReferenceType.settlement bet_id)
  create_entry (
      entry_for loser_wallet LedgerEntryType.settlement_deduct locked debit stake_amount
        LedgerReferenceType.settlement bet_id)
  create_entry (
      entry_for winner_wallet LedgerEntryType.payout_credit available credit winner_payout
        LedgerReferenceType.settlement bet_id)

unfoldable pub write_deposit_credit : Wallet → Decimal → Uuid → Exec Database (Unit {0})
unfolding create_entry
write_deposit_credit wallet amount deposit_id = create_entry (
    entry_for wallet LedgerEntryType.deposit available credit amount LedgerReferenceType.deposit
      deposit_id)

unfoldable pub write_withdrawal_hold : Wallet → Decimal → Uuid → Exec Database (Unit {0})
unfolding create_entry
write_withdrawal_hold wallet amount withdrawal_id = do
  create_entry (
      entry_for wallet LedgerEntryType.withdrawal_hold available debit amount
        LedgerReferenceType.withdrawal withdrawal_id)
  create_entry (
      entry_for wallet LedgerEntryType.withdrawal_hold locked credit amount
        LedgerReferenceType.withdrawal withdrawal_id)

unfoldable pub write_withdrawal_release : Wallet → Decimal → Uuid → Exec Database (Unit {0})
unfolding create_entry
write_withdrawal_release wallet amount withdrawal_id = do
  create_entry (
      entry_for wallet LedgerEntryType.withdrawal_release locked debit amount
        LedgerReferenceType.withdrawal withdrawal_id)
  create_entry (
      entry_for wallet LedgerEntryType.withdrawal_release available credit amount
        LedgerReferenceType.withdrawal withdrawal_id)

unfoldable pub write_withdrawal_debit : Wallet → Decimal → Uuid → Exec Database (Unit {0})
unfolding create_entry
write_withdrawal_debit wallet amount withdrawal_id = create_entry (
    entry_for wallet LedgerEntryType.withdrawal locked debit amount LedgerReferenceType.withdrawal
      withdrawal_id)

-- One round of the loop over the two wallets.
unfoldable pub write_no_winner_entries :
    Decimal → Decimal → Uuid → Wallet → Exec Database (Unit {0})
unfolding create_entry
write_no_winner_entries fee_per_user refund_per_user bet_id wallet = do
  create_entry (
      entry_for wallet LedgerEntryType.fee_deduct locked debit fee_per_user
        LedgerReferenceType.settlement bet_id)
  create_entry (
      entry_for wallet LedgerEntryType.settlement_deduct locked debit refund_per_user
        LedgerReferenceType.settlement bet_id)
  create_entry (
      entry_for wallet LedgerEntryType.refund_credit available credit refund_per_user
        LedgerReferenceType.settlement bet_id)

unfoldable pub write_settlement_no_winner :
    Wallet → Wallet → Decimal → Decimal → Uuid → Exec Database (Unit {0})
unfolding write_no_winner_entries
write_settlement_no_winner creator_wallet opponent_wallet fee_per_user refund_per_user bet_id = do
  write_no_winner_entries fee_per_user refund_per_user bet_id creator_wallet
  write_no_winner_entries fee_per_user refund_per_user bet_id opponent_wallet

-- What the entry adds to a balance field: the amount of a credit, the negated amount of a debit.
abbrev pub signed_amount : LedgerDirection → Decimal → Decimal
signed_amount credit amount = amount
signed_amount debit amount = pos 0 -ℤ amount

abbrev pub same_field : BalanceField → BalanceField → Bool
same_field available available = true
same_field locked locked = true
same_field _ _ = false

abbrev pub contribution : Uuid → BalanceField → LedgerEntry → Decimal
contribution user field entry =
    if entry.user_id == user && same_field entry.balance_field field
    then signed_amount entry.direction entry.amount
    else pos 0

-- The balance of a user's field as the ledger tells it.
abbrev pub ledger_balance : Uuid → BalanceField → List LedgerEntry → Decimal
ledger_balance user field = total (contribution user field)
