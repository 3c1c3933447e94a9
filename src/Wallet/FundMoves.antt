-- ===== src/Wallet/FundMoves.antt =====
-- The outcomes of holds, deposits and withdrawals (Wallet.Funds).
use buddy_bet_v.Prelude.{ℕ-eq, refl, inl, inr, Option-cases}
use buddy_bet_v.Prelude.Int.{pos, ◌-ℤ◌, ltb_ℤ, leb_ℤ}
use buddy_bet_v.Exec.{insufficient_funds, validation}
use buddy_bet_v.Exec.Steps.{raise_if-step}
use buddy_bet_v.Money.{Decimal}
use buddy_bet_v.Money.Cents.{IsCents}
use buddy_bet_v.Models.{Uuid, Database}
use buddy_bet_v.Ledger.{
  write_stake_lock, write_stake_unlock, write_deposit_credit, write_withdrawal_hold,
  write_withdrawal_release, write_withdrawal_debit,
}
use buddy_bet_v.Wallet.{wallet_of}
use buddy_bet_v.Wallet.Rows.{get-found, get-missing}
use buddy_bet_v.Wallet.Posting.{Posted, AllGood}
use buddy_bet_v.Wallet.Tails.{to_locked-tail, to_available-tail, credit-tail, debit-tail}
use buddy_bet_v.Wallet.Funds.{
  lock_funds, unlock_funds, credit_deposit, hold_withdrawal, release_withdrawal_hold,
  finalize_withdrawal_debit,
}
use buddy_bet_v.Wallet.StakeMoves.{
  stake_lock_entries, stake_unlock_entries, write_stake_lock-Inserts, write_stake_unlock-Inserts,
}
use buddy_bet_v.Wallet.FundEntries.{
  deposit_credit_entries, withdrawal_debit_entries, withdrawal_hold_entries,
  withdrawal_release_entries, write_deposit_credit-Inserts, write_withdrawal_debit-Inserts,
  write_withdrawal_hold-Inserts, write_withdrawal_release-Inserts,
}

module _ (user : Uuid) (amount : Decimal) (reference_id : Uuid) (db : Database) (good : AllGood db)
    (cents : IsCents amount) where
  -- Funds move from available to locked, or nothing happens.
  pub lock_funds-Posted :
      Posted user
        (pos 0 -ℤ amount)
        amount
        (stake_lock_entries amount reference_id)
        db
        (lock_funds user amount reference_id db)
  unfolding lock_funds
  lock_funds-Posted =
      raise_if-step
        (Posted user (pos 0 -ℤ amount) amount (stake_lock_entries amount reference_id) db)
        (leb_ℤ amount (pos 0)) validation _ db refl
        (λ _. elim (Option-cases (wallet_of user db)) [
          | inl missing ↦ rw (get-missing user db missing)
          | inr (w, found) ↦ rw (get-found user db w found) (
              raise_if-step
                (Posted user (pos 0 -ℤ amount) amount (stake_lock_entries amount reference_id) db)
                (ltb_ℤ w.available_balance amount) insufficient_funds _ db refl
                (λ _.
                  to_locked-tail (λ wallet. write_stake_lock wallet amount reference_id)
                    (stake_lock_entries amount reference_id)
                    (write_stake_lock-Inserts amount reference_id) user w db found amount
                    (good user w found) cents))
        ])

  -- Funds move from locked to available, or nothing happens.
  pub unlock_funds-Posted :
      Posted user amount
        (pos 0 -ℤ amount)
        (stake_unlock_entries amount reference_id)
        db
        (unlock_funds user amount reference_id db)
  unfolding unlock_funds
  unlock_funds-Posted =
      raise_if-step
        (Posted user amount (pos 0 -ℤ amount) (stake_unlock_entries amount reference_id) db)
        (leb_ℤ amount (pos 0)) validation _ db refl
        (λ _. elim (Option-cases (wallet_of user db)) [
          | inl missing ↦ rw (get-missing user db missing)
          | inr (w, found) ↦ rw (get-found user db w found) (
              raise_if-step
                (Posted user amount (pos 0 -ℤ amount) (stake_unlock_entries amount reference_id) db)
                (ltb_ℤ w.locked_balance amount) insufficient_funds _ db refl
                (λ _.
                  to_available-tail (λ wallet. write_stake_unlock wallet amount reference_id)
                    (stake_unlock_entries amount reference_id)
                    (write_stake_unlock-Inserts amount reference_id) user w db found amount
                    (good user w found) cents))
        ])

  -- A deposit is added to available, or nothing happens.
  pub credit_deposit-Posted :
      Posted user amount
        (pos 0)
        (deposit_credit_entries amount reference_id)
        db
        (credit_deposit user amount reference_id db)
  unfolding credit_deposit
  credit_deposit-Posted =
      raise_if-step (Posted user amount (pos 0) (deposit_credit_entries amount reference_id) db)
        (leb_ℤ amount (pos 0)) validation _ db refl
        (λ _. elim (Option-cases (wallet_of user db)) [
          | inl missing ↦ rw (get-missing user db missing)
          | inr (w, found) ↦ rw (get-found user db w found) (
              credit-tail (λ wallet. write_deposit_credit wallet amount reference_id)
                (deposit_credit_entries amount reference_id)
                (write_deposit_credit-Inserts amount reference_id) user w db found amount
                (good user w found) cents)
        ])

  -- The amount of a withdrawal moves to locked, or nothing happens.
  pub hold_withdrawal-Posted :
      Posted user
        (pos 0 -ℤ amount)
        amount
        (withdrawal_hold_entries amount reference_id)
        db
        (hold_withdrawal user amount reference_id db)
  unfolding hold_withdrawal
  hold_withdrawal-Posted =
      raise_if-step
        (Posted user (pos 0 -ℤ amount) amount (withdrawal_hold_entries amount reference_id) db)
        (leb_ℤ amount (pos 0)) validation _ db refl
        (λ _. elim (Option-cases (wallet_of user db)) [
          | inl missing ↦ rw (get-missing user db missing)
          | inr (w, found) ↦ rw (get-found user db w found) (
              raise_if-step
                (Posted user (pos 0 -ℤ amount) amount (withdrawal_hold_entries amount reference_id)
                  db)
                (ltb_ℤ w.available_balance amount) insufficient_funds _ db refl
                (λ _.
                  to_locked-tail (λ wallet. write_withdrawal_hold wallet amount reference_id)
                    (withdrawal_hold_entries amount reference_id)
                    (write_withdrawal_hold-Inserts amount reference_id) user w db found amount
                    (good user w found) cents))
        ])

  -- A held amount moves back to available, or nothing happens.
  pub release_withdrawal_hold-Posted :
      Posted user amount
        (pos 0 -ℤ amount)
        (withdrawal_release_entries amount reference_id)
        db
        (release_withdrawal_hold user amount reference_id db)
  unfolding release_withdrawal_hold
  release_withdrawal_hold-Posted =
      raise_if-step
        (Posted user amount (pos 0 -ℤ amount) (withdrawal_release_entries amount reference_id) db)
        (leb_ℤ amount (pos 0)) validation _ db refl
        (λ _. elim (Option-cases (wallet_of user db)) [
          | inl missing ↦ rw (get-missing user db missing)
          | inr (w, found) ↦ rw (get-found user db w found) (
              raise_if-step
                (Posted user amount (pos 0 -ℤ amount)
                  (withdrawal_release_entries amount reference_id) db)
                (ltb_ℤ w.locked_balance amount) insufficient_funds _ db refl
                (λ _.
                  to_available-tail (λ wallet. write_withdrawal_release wallet amount reference_id)
                    (withdrawal_release_entries amount reference_id)
                    (write_withdrawal_release-Inserts amount reference_id) user w db found amount
                    (good user w found) cents))
        ])

  -- A held amount leaves locked, or nothing happens.
  pub finalize_withdrawal_debit-Posted :
      Posted user
        (pos 0)
        (pos 0 -ℤ amount)
        (withdrawal_debit_entries amount reference_id)
        db
        (finalize_withdrawal_debit user amount reference_id db)
  unfolding finalize_withdrawal_debit
  finalize_withdrawal_debit-Posted =
      raise_if-step
        (Posted user (pos 0) (pos 0 -ℤ amount) (withdrawal_debit_entries amount reference_id) db)
        (leb_ℤ amount (pos 0)) validation _ db refl
        (λ _. elim (Option-cases (wallet_of user db)) [
          | inl missing ↦ rw (get-missing user db missing)
          | inr (w, found) ↦ rw (get-found user db w found) (
              raise_if-step
                (Posted user (pos 0) (pos 0 -ℤ amount)
                  (withdrawal_debit_entries amount reference_id) db)
                (ltb_ℤ w.locked_balance amount) insufficient_funds _ db refl
                (λ _.
                  debit-tail (λ wallet. write_withdrawal_debit wallet amount reference_id)
                    (withdrawal_debit_entries amount reference_id)
                    (write_withdrawal_debit-Inserts amount reference_id) user w db found amount
                    (good user w found) cents))
        ])
