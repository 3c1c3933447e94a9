-- ===== src/Wallet/FundEntries.antt =====
-- The entries that the writers for deposits and withdrawals insert.
use buddy_bet_v.Prelude.{ℕ-eq, refl, List, [], ◌∷◌}
use buddy_bet_v.Money.{Decimal}
use buddy_bet_v.Models.{Uuid, Wallet, LedgerEntry}
use buddy_bet_v.Models.Enums.{
  LedgerEntryType, LedgerReferenceType, available, locked, credit, debit,
}
use buddy_bet_v.Ledger.{
  entry_for, write_deposit_credit, write_withdrawal_hold, write_withdrawal_release,
  write_withdrawal_debit,
}
use buddy_bet_v.Wallet.Posting.{Inserts}

abbrev pub deposit_credit_entries : Decimal → Uuid → Wallet → List LedgerEntry
deposit_credit_entries amount reference_id wallet =
    entry_for wallet LedgerEntryType.deposit available credit amount LedgerReferenceType.deposit
      reference_id
    ∷ []

pub write_deposit_credit-Inserts :
    (amount : Decimal) (reference_id : Uuid)
    → Inserts
        (λ wallet. write_deposit_credit wallet amount reference_id)
        (deposit_credit_entries amount reference_id)
unfolding write_deposit_credit
write_deposit_credit-Inserts amount reference_id wallet db = refl

abbrev pub withdrawal_hold_entries : Decimal → Uuid → Wallet → List LedgerEntry
withdrawal_hold_entries amount reference_id wallet =
    entry_for wallet LedgerEntryType.withdrawal_hold locked credit amount
      LedgerReferenceType.withdrawal reference_id
    ∷ entry_for wallet LedgerEntryType.withdrawal_hold available debit amount
        LedgerReferenceType.withdrawal reference_id
    ∷ []

pub write_withdrawal_hold-Inserts :
    (amount : Decimal) (reference_id : Uuid)
    → Inserts
        (λ wallet. write_withdrawal_hold wallet amount reference_id)
        (withdrawal_hold_entries amount reference_id)
unfolding write_withdrawal_hold
write_withdrawal_hold-Inserts amount reference_id wallet db = refl

abbrev pub withdrawal_release_entries : Decimal → Uuid → Wallet → List LedgerEntry
withdrawal_release_entries amount reference_id wallet =
    entry_for wallet LedgerEntryType.withdrawal_release available credit amount
      LedgerReferenceType.withdrawal reference_id
    ∷ entry_for wallet LedgerEntryType.withdrawal_release locked debit amount
        LedgerReferenceType.withdrawal reference_id
    ∷ []

pub write_withdrawal_release-Inserts :
    (amount : Decimal) (reference_id : Uuid)
    → Inserts
        (λ wallet. write_withdrawal_release wallet amount reference_id)
        (withdrawal_release_entries amount reference_id)
unfolding write_withdrawal_release
write_withdrawal_release-Inserts amount reference_id wallet db = refl

abbrev pub withdrawal_debit_entries : Decimal → Uuid → Wallet → List LedgerEntry
withdrawal_debit_entries amount reference_id wallet =
    entry_for wallet LedgerEntryType.withdrawal locked debit amount LedgerReferenceType.withdrawal
      reference_id
    ∷ []

pub write_withdrawal_debit-Inserts :
    (amount : Decimal) (reference_id : Uuid)
    → Inserts
        (λ wallet. write_withdrawal_debit wallet amount reference_id)
        (withdrawal_debit_entries amount reference_id)
unfolding write_withdrawal_debit
write_withdrawal_debit-Inserts amount reference_id wallet db = refl
