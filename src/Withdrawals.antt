-- ===== src/Withdrawals.antt =====
-- app/services/withdrawal_service.py and app/repositories/withdrawal_repository.py: a withdrawal is
-- requested, approved, completed, rejected and failed.
use buddy_bet_v.Prelude.{ℕ-eq, Bool, true, false, not, Option, none, some, ◌∷◌, String}
use buddy_bet_v.Prelude.Int.{pos, leb_ℤ}
use buddy_bet_v.Exec.{
  Exec, gets, pure, modify, raise_if, some_or_raise, not_found, conflict, validation, ◌>>=◌, ◌>>◌,
}
use buddy_bet_v.Table.{find, update}
use buddy_bet_v.Money.{Decimal}
use buddy_bet_v.Models.{Uuid, DateTime, WithdrawalRequest, Database}
use buddy_bet_v.Models.Enums.{WithdrawalStatus}
use buddy_bet_v.Models.Statuses.{
  is_approvable, is_completable, is_rejectable, is_failable, is_terminal, is_hold_state,
}
use buddy_bet_v.Wallet.{get_by_user_id_or_404}
use buddy_bet_v.Wallet.Funds.{hold_withdrawal, release_withdrawal_hold, finalize_withdrawal_debit}

abbrev pub withdrawal_id_of : WithdrawalRequest → Uuid
withdrawal_id_of withdrawal = withdrawal.id

abbrev pub withdrawal_of : Uuid → Database → Option WithdrawalRequest
withdrawal_of withdrawal_id db = find withdrawal_id_of withdrawal_id db.withdrawal_requests

unfoldable pub get_withdrawal_or_404 : Uuid → Exec Database WithdrawalRequest
get_withdrawal_or_404 withdrawal_id = do
  withdrawal ← gets (withdrawal_of withdrawal_id)
  some_or_raise not_found withdrawal

abbrev pub set_withdrawal : WithdrawalRequest → Database → Database
set_withdrawal withdrawal db = record db {
  withdrawal_requests =
      update withdrawal_id_of withdrawal.id (λ _. withdrawal) db.withdrawal_requests;
}

abbrev pub add_withdrawal : WithdrawalRequest → Database → Database
add_withdrawal withdrawal db = record db {
  withdrawal_requests = withdrawal ∷ db.withdrawal_requests;
}

abbrev pub new_withdrawal :
    Uuid → Uuid → Uuid → Decimal → String → String → Option String → WithdrawalRequest
new_withdrawal new_id user_id wallet_id amount currency destination_account destination_type =
    record {
      id = new_id;
      user_id = user_id;
      wallet_id = wallet_id;
      amount = amount;
      currency = currency;
      status = WithdrawalStatus.pending;
      destination_account = destination_account;
      destination_type = destination_type;
      rejection_reason = none;
      approved_at = none;
      completed_at = none;
      failed_at = none;
    }

-- `numeric` is what the database makes of an amount that it stores in a column of two decimal places
-- and that is read again.
unfoldable pub create_withdrawal :
    (Decimal → Decimal)
    → Uuid
    → Decimal
    → String
    → String
    → Option String
    → Uuid
    → Exec Database WithdrawalRequest
create_withdrawal numeric user_id amount destination_account currency destination_type new_id = do
  raise_if (leb_ℤ amount (pos 0)) validation
  wallet ← get_by_user_id_or_404 user_id
  let withdrawal =
      new_withdrawal new_id user_id wallet.id (numeric amount) currency destination_account
        destination_type
  modify (add_withdrawal withdrawal)
  hold_withdrawal user_id amount withdrawal.id
  pure withdrawal

unfoldable pub assert_transition :
    WithdrawalRequest → (WithdrawalStatus → Bool) → Exec Database (Unit {0})
assert_transition withdrawal valid_from = do
  raise_if (is_terminal withdrawal.status) conflict
  raise_if (not (valid_from withdrawal.status)) conflict

abbrev pub approved : DateTime → WithdrawalRequest → WithdrawalRequest
approved now withdrawal = record withdrawal {
  status = WithdrawalStatus.approved;
  approved_at = some now;
}

unfoldable pub approve_withdrawal : Uuid → DateTime → Exec Database WithdrawalRequest
unfolding assert_transition
approve_withdrawal withdrawal_id now = do
  withdrawal ← get_withdrawal_or_404 withdrawal_id
  assert_transition withdrawal is_approvable
  modify (set_withdrawal (approved now withdrawal))
  pure (approved now withdrawal)

abbrev pub completed : DateTime → WithdrawalRequest → WithdrawalRequest
completed now withdrawal = record withdrawal {
  status = WithdrawalStatus.completed;
  completed_at = some now;
}

unfoldable pub complete_withdrawal : Uuid → DateTime → Exec Database WithdrawalRequest
unfolding assert_transition
complete_withdrawal withdrawal_id now = do
  withdrawal ← get_withdrawal_or_404 withdrawal_id
  assert_transition withdrawal is_completable
  finalize_withdrawal_debit withdrawal.user_id withdrawal.amount withdrawal.id
  modify (set_withdrawal (completed now withdrawal))
  pure (completed now withdrawal)

abbrev pub rejected : Option String → WithdrawalRequest → WithdrawalRequest
rejected reason withdrawal = record withdrawal {
  status = WithdrawalStatus.rejected;
  rejection_reason = reason;
}

unfoldable pub reject_withdrawal : Uuid → Option String → Exec Database WithdrawalRequest
unfolding assert_transition
reject_withdrawal withdrawal_id reason = do
  withdrawal ← get_withdrawal_or_404 withdrawal_id
  assert_transition withdrawal is_rejectable
  release_withdrawal_hold withdrawal.user_id withdrawal.amount withdrawal.id
  modify (set_withdrawal (rejected reason withdrawal))
  pure (rejected reason withdrawal)

abbrev pub failed : Option String → DateTime → WithdrawalRequest → WithdrawalRequest
failed reason now withdrawal = record withdrawal {
  status = WithdrawalStatus.failed;
  failed_at = some now;
  rejection_reason = reason;
}

-- The hold is released in the states that have one.
unfoldable pub release_if_held : WithdrawalRequest → Exec Database (Unit {0})
release_if_held withdrawal = elim (is_hold_state withdrawal.status) [
  | true ↦ do release_withdrawal_hold withdrawal.user_id withdrawal.amount withdrawal.id; pure tt
  | false ↦ pure tt
]

unfoldable pub fail_withdrawal : Uuid → Option String → DateTime → Exec Database WithdrawalRequest
unfolding assert_transition release_if_held
fail_withdrawal withdrawal_id reason now = do
  withdrawal ← get_withdrawal_or_404 withdrawal_id
  assert_transition withdrawal is_failable
  release_if_held withdrawal
  modify (set_withdrawal (failed reason now withdrawal))
  pure (failed reason now withdrawal)
