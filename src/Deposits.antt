-- ===== src/Deposits.antt =====
-- app/services/deposit_service.py and app/repositories/deposit_repository.py: a deposit is requested,
-- completed and failed; the wallet is credited when it is completed.
use buddy_bet_v.Prelude.{
  ℕ-eq, String-eq, Bool, false, not, ◌&&◌, ◌||◌, ◌==◌, ◌!=◌, Option, none, some, List, [], ◌∷◌,
  String,
}
use buddy_bet_v.Prelude.Int.{pos, leb_ℤ, ltb_ℤ}
use buddy_bet_v.Exec.{
  Exec, gets, pure, modify, raise_if, some_or_raise, not_found, conflict, validation,
  database_error, transaction, ◌>>=◌, ◌>>◌,
}
use buddy_bet_v.Table.{find, update}
use buddy_bet_v.Money.{Decimal}
use buddy_bet_v.Models.{Uuid, DateTime, DepositRequest, Database}
use buddy_bet_v.Models.Enums.{DepositStatus}
use buddy_bet_v.Models.Statuses.{is_terminal_deposit, is_completable_deposit}
use buddy_bet_v.Config.{Settings}
use buddy_bet_v.Wallet.{get_by_user_id_or_404}
use buddy_bet_v.Wallet.Funds.{credit_deposit}

abbrev pub deposit_id_of : DepositRequest → Uuid
deposit_id_of deposit = deposit.id

abbrev pub deposit_of : Uuid → Database → Option DepositRequest
deposit_of deposit_id db = find deposit_id_of deposit_id db.deposit_requests

unfoldable pub get_deposit_or_404 : Uuid → Exec Database DepositRequest
get_deposit_or_404 deposit_id = do
  deposit ← gets (deposit_of deposit_id)
  some_or_raise not_found deposit

abbrev pub set_deposit : DepositRequest → Database → Database
set_deposit deposit db = record db {
  deposit_requests = update deposit_id_of deposit.id (λ _. deposit) db.deposit_requests;
}

abbrev pub new_deposit :
    Uuid → Uuid → Uuid → Decimal → String → Option String → Option String → DepositRequest
new_deposit new_id user_id wallet_id amount currency payment_provider client_reference = record {
  id = new_id;
  user_id = user_id;
  wallet_id = wallet_id;
  amount = amount;
  currency = currency;
  status = DepositStatus.pending;
  payment_provider = payment_provider;
  provider_reference = none;
  client_reference = client_reference;
  checkout_url = none;
  completed_at = none;
  failed_at = none;
}

-- The columns that are UNIQUE, in the rows other than that of the id; NULLs are not unique.
abbrev pub has_reference : String → Option String → Bool
has_reference reference none = false
has_reference reference (some other) = other == reference

abbrev pub is_taken :
    (DepositRequest → Option String) → Uuid → Option String → List DepositRequest → Bool
is_taken column deposit_id none rows = false
is_taken column deposit_id (some reference) [] = false
is_taken column deposit_id (some reference) (row ∷ rows) =
    (row.id != deposit_id && has_reference reference (column row))
    || is_taken column deposit_id (some reference) rows

abbrev pub client_reference_taken : Uuid → Option String → Database → Bool
client_reference_taken deposit_id reference db =
    is_taken (λ row. row.client_reference) deposit_id reference db.deposit_requests

abbrev pub provider_reference_taken : Uuid → Option String → Database → Bool
provider_reference_taken deposit_id reference db =
    is_taken (λ row. row.provider_reference) deposit_id reference db.deposit_requests

abbrev pub add_deposit : DepositRequest → Database → Database
add_deposit deposit db = record db { deposit_requests = deposit ∷ db.deposit_requests }

-- `numeric` is what the database makes of an amount that it stores in a column of two decimal places
-- and that is read again.
unfoldable pub create_deposit :
    (Decimal → Decimal)
    → Uuid
    → Decimal
    → String
    → Option String
    → Option String
    → Uuid
    → Exec Database DepositRequest
create_deposit numeric user_id amount currency payment_provider client_reference new_id = do
  raise_if (leb_ℤ amount (pos 0)) validation
  wallet ← get_by_user_id_or_404 user_id
  let deposit =
      new_deposit new_id user_id wallet.id (numeric amount) currency payment_provider
        client_reference
  taken ← gets (client_reference_taken new_id client_reference)
  raise_if taken database_error
  modify (add_deposit deposit)
  pure deposit

abbrev pub processing : String → DepositRequest → DepositRequest
processing url deposit = record deposit {
  checkout_url = some url;
  status = DepositStatus.processing;
}

-- `checkout_url` stands for app/payments/payfast.py, which signs the parameters of the URL.
unfoldable pub initiate_payfast_deposit :
    Settings
    → (Decimal → Decimal)
    → (Uuid → Decimal → String)
    → Uuid
    → Decimal
    → Uuid
    → Exec Database DepositRequest
unfolding create_deposit
initiate_payfast_deposit settings numeric checkout_url user_id amount new_id = do
  raise_if (not settings.payfast_enabled) validation
  raise_if (ltb_ℤ amount settings.min_stake_amount) validation
  raise_if (ltb_ℤ settings.max_stake_amount amount) validation
  deposit ←
      create_deposit numeric user_id amount settings.platform_currency (some "payfast") none new_id
  let deposit' = processing (checkout_url deposit.id amount) deposit
  modify (set_deposit deposit')
  pure deposit'

abbrev pub or_same : Option String → Option String → Option String
or_same none old = old
or_same (some new) old = some new

abbrev pub completed : Option String → DateTime → DepositRequest → DepositRequest
completed provider_reference now deposit = record deposit {
  status = DepositStatus.completed;
  completed_at = some now;
  provider_reference = or_same provider_reference deposit.provider_reference;
}

-- The write of the row, which the database refuses when another row has the reference.
abbrev pub write_completed :
    DepositRequest → Option String → DateTime → Exec Database DepositRequest
write_completed deposit provider_reference now = do
  taken ← gets (provider_reference_taken deposit.id provider_reference)
  raise_if taken database_error
  modify (set_deposit (completed provider_reference now deposit))
  pure (completed provider_reference now deposit)

-- The credit and the write of the row. A flush that the database refuses rolls the session back.
unfoldable pub credit_and_complete :
    DepositRequest → Option String → DateTime → Exec Database DepositRequest
unfolding transaction
credit_and_complete deposit provider_reference now = transaction (
    credit_deposit deposit.user_id deposit.amount deposit.id
    >> write_completed deposit provider_reference now)

unfoldable pub complete_deposit : Uuid → Option String → DateTime → Exec Database DepositRequest
complete_deposit deposit_id provider_reference now = do
  deposit ← get_deposit_or_404 deposit_id
  raise_if (is_terminal_deposit deposit.status) conflict
  raise_if (not (is_completable_deposit deposit.status)) conflict
  credit_and_complete deposit provider_reference now

abbrev pub failed : DateTime → DepositRequest → DepositRequest
failed now deposit = record deposit { status = DepositStatus.failed; failed_at = some now }

unfoldable pub fail_deposit : Uuid → DateTime → Exec Database DepositRequest
fail_deposit deposit_id now = do
  deposit ← get_deposit_or_404 deposit_id
  raise_if (is_terminal_deposit deposit.status) conflict
  modify (set_deposit (failed now deposit))
  pure (failed now deposit)
