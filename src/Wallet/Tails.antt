-- ===== src/Wallet/Tails.antt =====
-- The ends that the operations of the wallet service share: verify the new balances, write the row,
-- insert the entries and return the wallet.
use buddy_bet_v.Prelude.{ℕ-eq, ◌≡◌, refl, Option, none, some, List}
use buddy_bet_v.Prelude.Int.{pos, ◌-ℤ◌, sub-as-add, add_zero}
use buddy_bet_v.Exec.{Exec, pure, ◌>>=◌, ◌>>◌}
use buddy_bet_v.Money.{Decimal, safe_add, safe_subtract, verify_non_negative}
use buddy_bet_v.Money.Cents.{
  IsCents, safe_add-cents, safe_subtract-cents, IsCents-safe_add, IsCents-safe_subtract,
}
use buddy_bet_v.Money.Steps.{verify_non_negative-step}
use buddy_bet_v.Models.{Uuid, Wallet, LedgerEntry, Database}
use buddy_bet_v.Wallet.{wallet_of, with_balances, update_balances}
use buddy_bet_v.Wallet.Rows.{update_balances-found}
use buddy_bet_v.Wallet.Posting.{IsGood, Posted, moved, Inserts}

-- On whole cents the rounding changes nothing.
module _ (wallet : Wallet) (amount : Decimal) (good : IsGood wallet) (cents : IsCents amount) where
  pub to_locked-moved :
      with_balances
        (some (safe_subtract wallet.available_balance amount))
        (some (safe_add wallet.locked_balance amount))
        wallet
      ≡ moved (pos 0 -ℤ amount) amount wallet
  to_locked-moved =
      rw
        (
          safe_subtract-cents wallet.available_balance amount good.0 cents,
          safe_add-cents wallet.locked_balance amount good.1 cents,
        )
        (rw (sub-as-add wallet.available_balance amount))

  pub to_available-moved :
      with_balances
        (some (safe_add wallet.available_balance amount))
        (some (safe_subtract wallet.locked_balance amount))
        wallet
      ≡ moved amount (pos 0 -ℤ amount) wallet
  to_available-moved =
      rw
        (
          safe_subtract-cents wallet.locked_balance amount good.1 cents,
          safe_add-cents wallet.available_balance amount good.0 cents,
        )
        (rw (sub-as-add wallet.locked_balance amount))

  pub credit-moved :
      with_balances (some (safe_add wallet.available_balance amount)) none wallet
      ≡ moved amount (pos 0) wallet
  credit-moved =
      rw (safe_add-cents wallet.available_balance amount good.0 cents)
        (rw (add_zero wallet.locked_balance))

  pub debit-moved :
      with_balances none (some (safe_subtract wallet.locked_balance amount)) wallet
      ≡ moved (pos 0) (pos 0 -ℤ amount) wallet
  debit-moved =
      rw (safe_subtract-cents wallet.locked_balance amount good.1 cents)
        (rw (sub-as-add wallet.locked_balance amount, add_zero wallet.available_balance))

-- A payout to available while a stake leaves locked.
pub both-moved :
    (wallet : Wallet) (amount payout : Decimal)
    → IsGood wallet
    → IsCents amount
    → IsCents payout
    → with_balances
        (some (safe_add wallet.available_balance payout))
        (some (safe_subtract wallet.locked_balance amount))
        wallet
      ≡ moved payout (pos 0 -ℤ amount) wallet
both-moved wallet amount payout good cents payout_cents =
    rw
      (
        safe_subtract-cents wallet.locked_balance amount good.1 cents,
        safe_add-cents wallet.available_balance payout good.0 payout_cents,
      )
      (rw (sub-as-add wallet.locked_balance amount))

module _ (writer : Wallet → Exec Database (Unit {0})) (entries : Wallet → List LedgerEntry)
    (inserts : Inserts writer entries) (user : Uuid) (wallet : Wallet) (db : Database)
    (found : wallet_of user db ≡ some wallet) where
  abbrev write_row : Option Decimal → Option Decimal → Exec Database Wallet
  write_row av lk = update_balances wallet av lk >>= λ wallet'. writer wallet' >> pure wallet'

  update-Posted :
      (to_available to_locked : Decimal) (av lk : Option Decimal)
      → with_balances av lk wallet ≡ moved to_available to_locked wallet
      → IsGood (with_balances av lk wallet)
      → Posted user to_available to_locked entries db (write_row av lk db)
  update-Posted to_available to_locked av lk same good =
      rw (update_balances-found user av lk wallet db found, inserts)
        (wallet, found, same, good, refl)

  module _ (amount : Decimal) (good : IsGood wallet) (cents : IsCents amount) where
    pub to_locked-tail : Posted user (pos 0 -ℤ amount) amount entries db (
        (verify_non_negative (safe_subtract wallet.available_balance amount)
            >> (verify_non_negative (safe_add wallet.locked_balance amount)
                >> write_row
                    (some (safe_subtract wallet.available_balance amount))
                    (some (safe_add wallet.locked_balance amount))))
          db)
    to_locked-tail =
        let P = Posted user (pos 0 -ℤ amount) amount entries db in
        let av = safe_subtract wallet.available_balance amount in
        let lk = safe_add wallet.locked_balance amount in
        verify_non_negative-step P av _ db refl λ h. verify_non_negative-step P lk _ db refl λ k.
          update-Posted (pos 0 -ℤ amount) amount (some av) (some lk)
            (to_locked-moved wallet amount good cents)
            (IsCents-safe_subtract _ _, IsCents-safe_add _ _, h, k)

    pub to_available-tail : Posted user amount (pos 0 -ℤ amount) entries db (
        (verify_non_negative (safe_subtract wallet.locked_balance amount)
            >> (verify_non_negative (safe_add wallet.available_balance amount)
                >> write_row
                    (some (safe_add wallet.available_balance amount))
                    (some (safe_subtract wallet.locked_balance amount))))
          db)
    to_available-tail =
        let P = Posted user amount (pos 0 -ℤ amount) entries db in
        let av = safe_add wallet.available_balance amount in
        let lk = safe_subtract wallet.locked_balance amount in
        verify_non_negative-step P lk _ db refl λ k. verify_non_negative-step P av _ db refl λ h.
          update-Posted amount (pos 0 -ℤ amount) (some av) (some lk)
            (to_available-moved wallet amount good cents)
            (IsCents-safe_add _ _, IsCents-safe_subtract _ _, h, k)

    pub credit-tail : Posted user amount (pos 0) entries db (
        (verify_non_negative (safe_add wallet.available_balance amount)
            >> write_row (some (safe_add wallet.available_balance amount)) none)
          db)
    credit-tail =
        let P = Posted user amount (pos 0) entries db in
        let av = safe_add wallet.available_balance amount in
        verify_non_negative-step P av _ db refl λ h.
          update-Posted amount (pos 0) (some av) none (credit-moved wallet amount good cents)
            (IsCents-safe_add _ _, good.1, h, good.3)

    pub debit-tail : Posted user (pos 0) (pos 0 -ℤ amount) entries db (
        (verify_non_negative (safe_subtract wallet.locked_balance amount)
            >> write_row none (some (safe_subtract wallet.locked_balance amount)))
          db)
    debit-tail =
        let P = Posted user (pos 0) (pos 0 -ℤ amount) entries db in
        let lk = safe_subtract wallet.locked_balance amount in
        verify_non_negative-step P lk _ db refl λ k.
          update-Posted (pos 0) (pos 0 -ℤ amount) none (some lk)
            (debit-moved wallet amount good cents) (good.0, IsCents-safe_subtract _ _, good.2, k)
