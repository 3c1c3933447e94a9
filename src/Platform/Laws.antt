-- ===== src/Platform/Laws.antt =====
-- The collection of a fee, and the sum of the platform balances.
use buddy_bet_v.Prelude.{
  String, String-eq, ◌≡◌, Option, some, arith, List, [], ◌∷◌, ltb, beq_self, if◌then◌else◌, Bool,
  true, false, none,
}
use buddy_bet_v.Prelude.Int.{◌+ℤ◌, shift}
use buddy_bet_v.Exec.{ok}
use buddy_bet_v.Table.{update, find-key, find-set, update-found, total, total-update}
use buddy_bet_v.Money.{Decimal, safe_add}
use buddy_bet_v.Money.Cents.{IsCents, IsCents-safe_add, safe_add-cents}
use buddy_bet_v.Models.{DateTime, FeeConfig, PlatformAccount, Database}
use buddy_bet_v.Models.Enums.{FeeType}
use buddy_bet_v.Platform.{currency_of, account_of, credited, credit_fee, applies, later, latest}

abbrev pub balance_of : PlatformAccount → Decimal
balance_of account = account.balance

abbrev pub platform_total : Database → Decimal
platform_total db = total balance_of db.platform_accounts

abbrev pub AccountsGood : Database → Type 0
AccountsGood db =
    (currency : String) (account : PlatformAccount)
    → account_of currency db ≡ some account
    → IsCents account.balance

abbrev pub set_account : String → PlatformAccount → Database → Database
set_account currency account db = record db {
  platform_accounts = update currency_of currency (λ _. account) db.platform_accounts;
}

module _ (currency : String) (account : PlatformAccount) (db : Database)
    (found : account_of currency db ≡ some account) where
  pub currency_of-found : account.currency ≡ currency
  currency_of-found = find-key currency_of currency account db.platform_accounts found

  pub credit_fee-found :
      (amount : Decimal)
      → credit_fee account amount db
        ≡ (ok (credited amount account), set_account currency (credited amount account) db)
  unfolding credit_fee
  credit_fee-found amount =
      rw
        (
          currency_of-found,
          update-found currency_of currency (credited amount) account db.platform_accounts found,
          find-set currency_of currency currency (credited amount account) account
              db.platform_accounts found currency_of-found,
          beq_self currency,
        )
        (ground (arith, currency_of-found))

  pub platform_total-credited :
      (amount : Decimal)
      → IsCents account.balance
      → IsCents amount
      → platform_total (set_account currency (credited amount account) db)
        ≡ platform_total db +ℤ amount
  platform_total-credited amount good cents =
      shift (platform_total db) _ account.balance (safe_add account.balance amount) amount
        (total-update currency_of balance_of currency (λ _. credited amount account) account
          db.platform_accounts found)
        (safe_add-cents account.balance amount good cents)

  pub credited-AccountsGood :
      (amount : Decimal)
      → AccountsGood db
      → AccountsGood (set_account currency (credited amount account) db)
  credited-AccountsGood amount good j x h = ground (
    arith,
    find-set currency_of j currency (credited amount account) account db.platform_accounts found
        currency_of-found,
    good j x,
    IsCents-safe_add account.balance amount,
  )

-- Every configured rate satisfies a predicate.
abbrev pub AllRates : (Decimal → Type 0) → List FeeConfig → Type 0
AllRates P [] = Unit {0}
AllRates P (row ∷ rows) = P row.rate × AllRates P rows

abbrev pub RateOf : (Decimal → Type 0) → Option FeeConfig → Type 0
RateOf P none = Unit {0}
RateOf P (some row) = P row.rate

later-RateOf :
    (P : Decimal → Type 0) (best : Option FeeConfig) (row : FeeConfig)
    → RateOf P best
    → P row.rate
    → RateOf P (later best row)
later-RateOf P none row b r = r
later-RateOf P (some best) row b r = pick (ltb best.effective_from row.effective_from)
  where
    pick : (t : Bool) → RateOf P (if t then some row else some best)
    pick true = r
    pick false = b

pub latest-RateOf :
    (P : Decimal → Type 0) (fee_type : FeeType) (currency : String) (as_of : DateTime)
    → (best : Option FeeConfig) (rows : List FeeConfig) → RateOf P best
    → AllRates P rows
    → RateOf P (latest fee_type currency as_of best rows)
unfolding latest
latest-RateOf P fee_type currency as_of best [] b all = b
latest-RateOf P fee_type currency as_of best (row ∷ rows) b all =
    latest-RateOf P fee_type currency as_of
      (if applies fee_type currency as_of row then later best row else best) rows
      (pick (applies fee_type currency as_of row)) all.1
  where
    pick : (t : Bool) → RateOf P (if t then later best row else best)
    pick true = later-RateOf P best row b all.0
    pick false = b
