-- ===== src/Wallet/HalfCents.antt =====
-- `lock_stake` with a stake that is not a whole number of cents, which `create_bet` does not refuse.
use buddy_bet_v.Prelude.{ℕ-eq, ◌≡◌, ◌+◌, ◌*◌, ℕ, refl, arith, some, false}
use buddy_bet_v.Prelude.Int.{pos, ◌+ℤ◌, ◌-ℤ◌, ◌≤ℤ◌, ltb_ℤ, int_laws}
use buddy_bet_v.Exec.{ok}
use buddy_bet_v.Money.{Decimal, cent}
use buddy_bet_v.Money.Rounding.{half_above, safe_add-half, safe_subtract-half}
use buddy_bet_v.Models.{Uuid, Wallet, Database}
use buddy_bet_v.Ledger.{write_stake_lock}
use buddy_bet_v.Wallet.{wallet_of, with_balances}
use buddy_bet_v.Wallet.Rows.{get-found, update_balances-found}
use buddy_bet_v.Wallet.Posting.{IsGood, post}
use buddy_bet_v.Wallet.StakeMoves.{stake_lock_entries}
use buddy_bet_v.Wallet.Reconcile.{holdings}
use buddy_bet_v.Wallet.Stakes.{lock_stake}

not_less : (a b : Decimal) → b ≤ℤ a → ltb_ℤ a b ≡ false
not_less a b h = ground arith

module _ (user : Uuid) (k : ℕ) (bet_id : Uuid) (db : Database) (w : Wallet)
    (found : wallet_of user db ≡ some w) (good : IsGood w)
    (enough : half_above k ≤ℤ w.available_balance) where
  -- For a wallet whose balances are whole cents and not negative, and a stake half a cent above a whole
  -- number of cents that the available balance covers, `lock_stake` returns, and the two balances
  -- together are one cent more than before.
  pub lock_stake-half_cent :
      (w' : Wallet) × (db' : Database) × (lock_stake user (half_above k) bet_id db ≡ (ok w', db'))
      × (holdings w' ≡ holdings w +ℤ pos cent)
  unfolding lock_stake write_stake_lock
  lock_stake-half_cent =
      let s = half_above k in
      let new_available = w.available_balance -ℤ pos (k * cent) in
      let new_locked = w.locked_balance +ℤ pos (k * cent + cent) in
      let w' = with_balances (some new_available) (some new_locked) w in
      (
        w',
        post user w' (stake_lock_entries s bet_id w') db,
        rw
            (
              get-found user db w found,
              not_less w.available_balance s enough,
              safe_subtract-half w.available_balance k good.0 enough,
              safe_add-half w.locked_balance k good.1 good.3,
              not_less new_available (pos 0) (omega int_laws),
              not_less new_locked (pos 0) (omega int_laws),
              update_balances-found user (some new_available) (some new_locked) w db found,
            )
            refl,
        omega int_laws,
      )
