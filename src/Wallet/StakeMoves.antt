-- ===== src/Wallet/StakeMoves.antt =====
-- The outcomes of the operations on stakes (Wallet.Stakes).
use buddy_bet_v.Prelude.{ℕ-eq, refl, inl, inr, List, [], ◌∷◌, Option-cases}
use buddy_bet_v.Prelude.Int.{pos, ◌-ℤ◌, ltb_ℤ}
use buddy_bet_v.Exec.{insufficient_funds}
use buddy_bet_v.Exec.Steps.{raise_if-step}
use buddy_bet_v.Money.{Decimal}
use buddy_bet_v.Money.Cents.{IsCents}
use buddy_bet_v.Models.{Uuid, Wallet, LedgerEntry, Database}
use buddy_bet_v.Models.Enums.{
  LedgerEntryType, LedgerReferenceType, available, locked, credit, debit,
}
use buddy_bet_v.Ledger.{entry_for, write_stake_lock, write_stake_unlock, write_void_refund}
use buddy_bet_v.Wallet.{wallet_of}
use buddy_bet_v.Wallet.Rows.{get-found, get-missing}
use buddy_bet_v.Wallet.Posting.{Posted, AllGood, Inserts}
use buddy_bet_v.Wallet.Tails.{to_locked-tail, to_available-tail}
use buddy_bet_v.Wallet.Stakes.{lock_stake, unlock_stake, void_refund}

abbrev pub stake_lock_entries : Decimal → Uuid → Wallet → List LedgerEntry
stake_lock_entries amount reference_id wallet =
    entry_for wallet LedgerEntryType.stake_lock locked credit amount LedgerReferenceType.bet
      reference_id
    ∷ entry_for wallet LedgerEntryType.stake_lock available debit amount LedgerReferenceType.bet
        reference_id
    ∷ []

pub write_stake_lock-Inserts :
    (amount : Decimal) (reference_id : Uuid)
    → Inserts
        (λ wallet. write_stake_lock wallet amount reference_id)
        (stake_lock_entries amount reference_id)
unfolding write_stake_lock
write_stake_lock-Inserts amount reference_id wallet db = refl

abbrev pub stake_unlock_entries : Decimal → Uuid → Wallet → List LedgerEntry
stake_unlock_entries amount reference_id wallet =
    entry_for wallet LedgerEntryType.stake_unlock available credit amount
      LedgerReferenceType.cancellation reference_id
    ∷ entry_for wallet LedgerEntryType.stake_unlock locked debit amount
        LedgerReferenceType.cancellation reference_id
    ∷ []

pub write_stake_unlock-Inserts :
    (amount : Decimal) (reference_id : Uuid)
    → Inserts
        (λ wallet. write_stake_unlock wallet amount reference_id)
        (stake_unlock_entries amount reference_id)
unfolding write_stake_unlock
write_stake_unlock-Inserts amount reference_id wallet db = refl

abbrev pub void_refund_entries : Decimal → Uuid → Wallet → List LedgerEntry
void_refund_entries amount reference_id wallet =
    entry_for wallet LedgerEntryType.void_refund available credit amount LedgerReferenceType.void
      reference_id
    ∷ entry_for wallet LedgerEntryType.void_refund locked debit amount LedgerReferenceType.void
        reference_id
    ∷ []

write_void_refund-Inserts :
    (amount : Decimal) (reference_id : Uuid)
    → Inserts
        (λ wallet. write_void_refund wallet amount reference_id)
        (void_refund_entries amount reference_id)
unfolding write_void_refund
write_void_refund-Inserts amount reference_id wallet db = refl

module _ (user : Uuid) (amount : Decimal) (reference_id : Uuid) (db : Database) (good : AllGood db)
    (cents : IsCents amount) where
  -- A stake moves from available to locked, or nothing happens.
  pub lock_stake-Posted :
      Posted user
        (pos 0 -ℤ amount)
        amount
        (stake_lock_entries amount reference_id)
        db
        (lock_stake user amount reference_id db)
  unfolding lock_stake
  lock_stake-Posted = elim (Option-cases (wallet_of user db)) [
    | inl missing ↦ rw (get-missing user db missing)
    | inr (w, found) ↦ rw (get-found user db w found) (
        raise_if-step
          (Posted user (pos 0 -ℤ amount) amount (stake_lock_entries amount reference_id) db)
          (ltb_ℤ w.available_balance amount) insufficient_funds _ db refl
          (λ _.
            to_locked-tail (λ wallet. write_stake_lock wallet amount reference_id)
              (stake_lock_entries amount reference_id)
              (write_stake_lock-Inserts amount reference_id) user w db found amount
              (good user w found) cents))
  ]

  -- A stake moves back from locked to available, or nothing happens.
  pub unlock_stake-Posted :
      Posted user amount
        (pos 0 -ℤ amount)
        (stake_unlock_entries amount reference_id)
        db
        (unlock_stake user amount reference_id db)
  unfolding unlock_stake
  unlock_stake-Posted = elim (Option-cases (wallet_of user db)) [
    | inl missing ↦ rw (get-missing user db missing)
    | inr (w, found) ↦ rw (get-found user db w found) (
        to_available-tail (λ wallet. write_stake_unlock wallet amount reference_id)
          (stake_unlock_entries amount reference_id)
          (write_stake_unlock-Inserts amount reference_id) user w db found amount
          (good user w found) cents)
  ]

  -- A refund moves from locked to available, or nothing happens.
  pub void_refund-Posted :
      Posted user amount
        (pos 0 -ℤ amount)
        (void_refund_entries amount reference_id)
        db
        (void_refund user amount reference_id db)
  unfolding void_refund
  void_refund-Posted = elim (Option-cases (wallet_of user db)) [
    | inl missing ↦ rw (get-missing user db missing)
    | inr (w, found) ↦ rw (get-found user db w found) (
        to_available-tail (λ wallet. write_void_refund wallet amount reference_id)
          (void_refund_entries amount reference_id) (write_void_refund-Inserts amount reference_id)
          user w db found amount (good user w found) cents)
  ]
