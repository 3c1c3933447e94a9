-- ===== src/Models/Statuses.antt =====
-- The sets of statuses that app/services/deposit_service.py and app/services/withdrawal_service.py
-- test.
use buddy_bet_v.Prelude.{Bool, true, false}
use buddy_bet_v.Models.Enums.{DepositStatus, WithdrawalStatus}

-- The sets of statuses of the deposit service.
abbrev pub is_terminal_deposit : DepositStatus → Bool
is_terminal_deposit DepositStatus.completed = true
is_terminal_deposit DepositStatus.failed = true
is_terminal_deposit DepositStatus.cancelled = true
is_terminal_deposit _ = false

abbrev pub is_completable_deposit : DepositStatus → Bool
is_completable_deposit DepositStatus.pending = true
is_completable_deposit DepositStatus.processing = true
is_completable_deposit _ = false

-- The sets of statuses of the withdrawal service.
abbrev pub is_approvable : WithdrawalStatus → Bool
is_approvable WithdrawalStatus.pending = true
is_approvable _ = false

abbrev pub is_completable : WithdrawalStatus → Bool
is_completable WithdrawalStatus.approved = true
is_completable WithdrawalStatus.processing = true
is_completable _ = false

abbrev pub is_rejectable : WithdrawalStatus → Bool
is_rejectable WithdrawalStatus.pending = true
is_rejectable WithdrawalStatus.approved = true
is_rejectable _ = false

abbrev pub is_failable : WithdrawalStatus → Bool
is_failable WithdrawalStatus.pending = true
is_failable WithdrawalStatus.approved = true
is_failable WithdrawalStatus.processing = true
is_failable _ = false

abbrev pub is_terminal : WithdrawalStatus → Bool
is_terminal WithdrawalStatus.completed = true
is_terminal WithdrawalStatus.failed = true
is_terminal WithdrawalStatus.rejected = true
is_terminal _ = false

abbrev pub is_hold_state : WithdrawalStatus → Bool
is_hold_state WithdrawalStatus.pending = true
is_hold_state WithdrawalStatus.approved = true
is_hold_state WithdrawalStatus.processing = true
is_hold_state _ = false
