-- ===== src/Platform.antt =====
-- app/repositories/platform_repository.py and app/repositories/fee_config_repository.py: the account
-- that collects the fees, and the fee rates by date.
pub mod Laws
pub mod Latest
use buddy_bet_v.Prelude.{
  ◌+◌, ◌&&◌, Bool, Option, none, some, List, [], ◌∷◌, String, String-eq, leb, ltb, ◌==◌,
  if◌then◌else◌,
}
use buddy_bet_v.Exec.{Exec, gets, modify, some_or_raise, not_found, ◌>>=◌, ◌>>◌}
use buddy_bet_v.Table.{find, update}
use buddy_bet_v.Money.{Decimal, safe_add}
use buddy_bet_v.Models.{Uuid, DateTime, FeeConfig, PlatformAccount, PlatformLedgerEntry, Database}
use buddy_bet_v.Models.Enums.{
  FeeType, FeeType-eq, PlatformEntryType, SettlementPathType, LedgerDirection, LedgerReferenceType,
}

abbrev pub currency_of : PlatformAccount → String
currency_of account = account.currency

abbrev pub account_of : String → Database → Option PlatformAccount
account_of currency db = find currency_of currency db.platform_accounts

unfoldable pub get_for_currency_for_update : String → Exec Database PlatformAccount
get_for_currency_for_update currency = do
  account ← gets (account_of currency)
  some_or_raise not_found account

abbrev pub credited : Decimal → PlatformAccount → PlatformAccount
credited amount account = record account {
  balance = safe_add account.balance amount;
  version = account.version + 1;
}

-- The flush writes the row, and the refresh reads it again.
unfoldable pub credit_fee : PlatformAccount → Decimal → Exec Database PlatformAccount
unfolding get_for_currency_for_update
credit_fee account amount = do
  modify (λ db. record db {
    platform_accounts = update currency_of account.currency (credited amount) db.platform_accounts;
  })
  get_for_currency_for_update account.currency

unfoldable pub write_ledger_entry :
    PlatformAccount
    → Decimal
    → Uuid
    → PlatformEntryType
    → SettlementPathType
    → Exec Database (Unit {0})
write_ledger_entry account amount bet_id entry_type settlement_path = modify (λ db. record db {
  platform_ledger_entries =
      record {
        platform_account_id = account.id;
        entry_type = entry_type;
        direction = LedgerDirection.credit;
        amount = amount;
        reference_type = LedgerReferenceType.settlement;
        reference_id = bet_id;
        balance_after = account.balance;
        settlement_path = settlement_path;
      }
      ∷ db.platform_ledger_entries;
})

-- The filters of the query.
abbrev pub applies : FeeType → String → DateTime → FeeConfig → Bool
applies fee_type currency as_of row =
    row.fee_type == fee_type && row.currency == currency && leb row.effective_from as_of

-- `order_by(effective_from.desc()).limit(1)`: the later of the best row so far and one more row. Of
-- rows with one date the database may return any; here it is the first.
abbrev pub later : Option FeeConfig → FeeConfig → Option FeeConfig
later none row = some row
later (some best) row = if ltb best.effective_from row.effective_from then some row else some best

unfoldable pub latest :
    FeeType → String → DateTime → Option FeeConfig → List FeeConfig → Option FeeConfig
latest fee_type currency as_of best [] = best
latest fee_type currency as_of best (row ∷ rows) =
    latest fee_type currency as_of
      (if applies fee_type currency as_of row then later best row else best) rows

unfoldable pub get_active_rate : FeeType → String → DateTime → Exec Database Decimal
unfolding latest
get_active_rate fee_type currency as_of = do
  row ← gets (λ db. latest fee_type currency as_of none db.fee_config)
  found ← some_or_raise not_found row
  gets (λ _. found.rate)
