-- ===== src/Escrow/Credited.antt =====
-- `credit_deposit` (app/services/wallet_service.py) returns for a wallet that is there.
use buddy_bet_v.Prelude.{ℕ-eq, String-eq, ◌≡◌, refl, arith, false, none, some, [], beq_self}
use buddy_bet_v.Prelude.Int.{pos, ◌+ℤ◌, ◌<ℤ◌, ◌≤ℤ◌, int_laws, shift, leb_ℤ, ltb_ℤ}
use buddy_bet_v.Exec.{ok}
use buddy_bet_v.Money.{Decimal, verify_non_negative}
use buddy_bet_v.Money.Cents.{IsCents, safe_add-cents, IsCents-+ℤ}
use buddy_bet_v.Models.{Uuid, Wallet, Database}
use buddy_bet_v.Ledger.{write_deposit_credit}
use buddy_bet_v.Wallet.{wallet_of, with_balances}
use buddy_bet_v.Wallet.Funds.{credit_deposit}
use buddy_bet_v.Wallet.Rows.{get-found, update_balances-found, user_of-found}
use buddy_bet_v.Wallet.FundEntries.{deposit_credit_entries}
use buddy_bet_v.Wallet.Posting.{IsGood, post}
use buddy_bet_v.Wallet.Reconcile.{holdings, total-post, wallet_of-post, total_holdings}

positive_test : (amount : Decimal) → pos 0 <ℤ amount → leb_ℤ amount (pos 0) ≡ false
positive_test amount h = ground (arith, h)

sum_positive : (a amount : Decimal) → pos 0 ≤ℤ a → pos 0 <ℤ amount → pos 0 ≤ℤ (a +ℤ amount)
sum_positive a amount h k = omega int_laws

not_negative : (a : Decimal) → pos 0 ≤ℤ a → ltb_ℤ a (pos 0) ≡ false
not_negative a h = ground (arith, h)

abbrev pub raised : Decimal → Wallet → Wallet
raised amount wallet = with_balances (some (wallet.available_balance +ℤ amount)) none wallet

pub raised-IsGood :
    (amount : Decimal) (wallet : Wallet)
    → IsGood wallet
    → IsCents amount
    → pos 0 <ℤ amount
    → IsGood (raised amount wallet)
raised-IsGood amount wallet good cents positive = (
  IsCents-+ℤ wallet.available_balance amount good.0 cents,
  good.1,
  sum_positive wallet.available_balance amount good.2 positive,
  good.3,
)

-- The database after a deposit of the amount was credited to the wallet.
abbrev pub with_credit : Uuid → Decimal → Uuid → Wallet → Database → Database
with_credit user amount reference_id wallet db =
    let wallet' = raised amount wallet in
    post user wallet' (deposit_credit_entries amount reference_id wallet') db

module _ (user : Uuid) (amount : Decimal) (reference_id : Uuid) (wallet : Wallet) (db : Database)
    (found : wallet_of user db ≡ some wallet) where
  -- A positive amount is credited to a wallet that is there.
  pub credit_deposit-returns :
      IsGood wallet
      → IsCents amount
      → pos 0 <ℤ amount
      → credit_deposit user amount reference_id db
        ≡ (ok (raised amount wallet), with_credit user amount reference_id wallet db)
  unfolding credit_deposit verify_non_negative write_deposit_credit
  credit_deposit-returns good cents positive =
      rw
        (
          positive_test amount positive,
          get-found user db wallet found,
          safe_add-cents wallet.available_balance amount good.0 cents,
          not_negative _ (sum_positive wallet.available_balance amount good.2 positive),
          update_balances-found user (some (wallet.available_balance +ℤ amount)) none wallet db
              found,
        )
        refl

  pub with_credit-total :
      total_holdings (with_credit user amount reference_id wallet db) ≡ total_holdings db +ℤ amount
  with_credit-total =
      let wallet' = raised amount wallet in
      shift (total_holdings db) _ (holdings wallet) (holdings wallet') amount
        (total-post user wallet wallet' (deposit_credit_entries amount reference_id wallet') db
          found (user_of-found user db wallet found))
        (omega int_laws)

  pub with_credit-found :
      wallet_of user (with_credit user amount reference_id wallet db) ≡ some (raised amount wallet)
  with_credit-found =
      rw
        (
          wallet_of-post user wallet (raised amount wallet) [] db found
              (user_of-found user db wallet found) user,
          beq_self user,
        )
        refl
