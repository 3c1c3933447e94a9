-- ===== src/Tests/Services.antt =====
-- The services of the bets, the withdrawals and the deposits on the small database.
use buddy_bet_v.Deposits.{create_deposit, initiate_payfast_deposit}
use buddy_bet_v.Wallet.{get_by_user_id_or_404}
use buddy_bet_v.Ledger.{write_deposit_credit}
use buddy_bet_v.Withdrawals.{
  approve_withdrawal, assert_transition, complete_withdrawal, fail_withdrawal,
  get_withdrawal_or_404, reject_withdrawal, release_if_held,
}
use buddy_bet_v.Deposits.{complete_deposit, credit_and_complete, get_deposit_or_404}
use buddy_bet_v.Ledger.{
  create_entry, write_stake_lock, write_stake_unlock, write_withdrawal_debit,
  write_withdrawal_release,
}
use buddy_bet_v.Wallet.Funds.{credit_deposit, finalize_withdrawal_debit, release_withdrawal_hold}
use buddy_bet_v.Bets.{get_bet_or_404, save_bet, write_bet_event}
use buddy_bet_v.Wallet.{get_by_user_id_for_update, update_balances}
use buddy_bet_v.Matches.{get_match_or_404}
use buddy_bet_v.Wallet.Stakes.{lock_stake, unlock_stake}
use buddy_bet_v.Money.{quantize, safe_add, safe_subtract, verify_non_negative}
use buddy_bet_v.Prelude.Int.{◌+ℤ◌}
use buddy_bet_v.Prelude.{ℕ, ◌^◌, ◌≡◌, refl, none, some, Bool, true, false}
use buddy_bet_v.Prelude.Int.{pos, ◌-ℤ◌}
use buddy_bet_v.Exec.{Result, ok, err}
use buddy_bet_v.Exec.OnOk.{OnOk}
use buddy_bet_v.Money.{round_half_up}
use buddy_bet_v.Money.Cents.{round_half_up-cents}
use buddy_bet_v.Models.{Bet, Database}
use buddy_bet_v.Models.Enums.{FootballOutcome}
use buddy_bet_v.Models.Statuses.{is_completable}
use buddy_bet_v.Bets.Service.{create_bet, accept_bet, cancel_bet}
use buddy_bet_v.Withdrawals
use buddy_bet_v.Deposits
use buddy_bet_v.Escrow.BetMoves.{Accepted, accept_bet-Accepted, Cancelled, cancel_bet-Cancelled}
use buddy_bet_v.Escrow.Creation.{Created, create_bet-Created}
use buddy_bet_v.Escrow.Intake.{Requested, create_withdrawal-Requested}
use buddy_bet_v.Escrow.Requests.{Decided}
use buddy_bet_v.Escrow.Withdrawals.{complete_withdrawal-Decided}
use buddy_bet_v.Escrow.Payments.{Initiated, initiate_payfast_deposit-Initiated}
use buddy_bet_v.Money.{Decimal}
use buddy_bet_v.Prelude.{String}
use buddy_bet_v.Models.{Uuid}
use buddy_bet_v.Escrow.Deposits.{Answered, complete_deposit-Answered}
use buddy_bet_v.Tests.Data.{demo, units, user_1, user_2, defaults}
use buddy_bet_v.Tests.Data.Facts.{demo-IsConsistent}

-- Before the kickoff of the scheduled match.
abbrev t : ℕ
t = 10 ^ 11

abbrev is_ok : {A : Type 0} → Result A → Bool
is_ok (ok _) = true
is_ok (err _) = false

abbrev accepted : Result Bet × Database
accepted = accept_bet user_2 8 FootballOutcome.home_win t demo

accept_bet-returns : is_ok accepted.0 ≡ true
unfolding accept_bet lock_stake write_stake_lock save_bet write_bet_event get_bet_or_404
    get_match_or_404 get_by_user_id_for_update verify_non_negative update_balances create_entry
    safe_add safe_subtract round_half_up quantize ◌+ℤ◌ ◌-ℤ◌
accept_bet-returns = refl

accept_bet-Accepted_example : OnOk (Accepted user_2 8 FootballOutcome.home_win t demo) accepted
accept_bet-Accepted_example =
    accept_bet-Accepted 8 demo demo-IsConsistent user_2 FootballOutcome.home_win t

abbrev cancelled : Result Bet × Database
cancelled = cancel_bet user_1 8 demo

cancel_bet-returns : is_ok cancelled.0 ≡ true
unfolding cancel_bet unlock_stake write_stake_unlock save_bet write_bet_event get_bet_or_404
    get_match_or_404 get_by_user_id_for_update verify_non_negative update_balances create_entry
    safe_add safe_subtract round_half_up quantize ◌+ℤ◌ ◌-ℤ◌
cancel_bet-returns = refl

cancel_bet-Cancelled_example : OnOk (Cancelled user_1 8 demo) cancelled
cancel_bet-Cancelled_example = cancel_bet-Cancelled 8 demo demo-IsConsistent user_1

-- The database rounds to whole cents.
abbrev created : Result Bet × Database
created = create_bet defaults round_half_up user_2 6 FootballOutcome.draw (units 30) 50 t demo

create_bet-returns : is_ok created.0 ≡ true
unfolding create_bet lock_stake write_stake_lock save_bet write_bet_event get_bet_or_404
    get_match_or_404 get_by_user_id_for_update verify_non_negative update_balances create_entry
    safe_add safe_subtract round_half_up quantize ◌+ℤ◌ ◌-ℤ◌
create_bet-returns = refl

create_bet-Created_example :
    OnOk (Created defaults user_2 6 FootballOutcome.draw (units 30) 50 t demo) created
create_bet-Created_example =
    create_bet-Created defaults round_half_up round_half_up-cents user_2 6 FootballOutcome.draw
      (units 30) (refl, refl) 50 t demo demo-IsConsistent

create_withdrawal-Requested_example :
    OnOk
      (Requested 2 (units 9) "account" "ZAR" none 60 demo)
      (Withdrawals.create_withdrawal round_half_up 2 (units 9) "account" "ZAR" none 60 demo)
create_withdrawal-Requested_example =
    create_withdrawal-Requested round_half_up round_half_up-cents 2 (units 9) (refl, refl) "account"
      "ZAR" none 60 demo demo-IsConsistent

complete_withdrawal-Decided_example :
    OnOk
      (Decided 31 is_completable (Withdrawals.completed t) (λ w. pos 0 -ℤ w.amount) demo)
      (Withdrawals.complete_withdrawal 31 t demo)
complete_withdrawal-Decided_example = complete_withdrawal-Decided 31 t demo demo-IsConsistent

decisions_return :
    (is_ok (Withdrawals.approve_withdrawal 30 t demo).0 ≡ true)
    × (is_ok (Withdrawals.complete_withdrawal 31 t demo).0 ≡ true)
    × (is_ok (Withdrawals.reject_withdrawal 30 none demo).0 ≡ true)
    × (is_ok (Withdrawals.fail_withdrawal 30 none t demo).0 ≡ true)
    × (is_ok (Deposits.complete_deposit 40 none t demo).0 ≡ true)
unfolding approve_withdrawal complete_withdrawal reject_withdrawal fail_withdrawal release_if_held
    complete_deposit credit_and_complete get_deposit_or_404 get_withdrawal_or_404 assert_transition
    release_withdrawal_hold finalize_withdrawal_debit credit_deposit write_withdrawal_release
    write_withdrawal_debit write_deposit_credit get_bet_or_404 get_match_or_404
    get_by_user_id_for_update verify_non_negative update_balances create_entry safe_add
    safe_subtract round_half_up quantize ◌+ℤ◌ ◌-ℤ◌
decisions_return = (refl, refl, refl, refl, refl)

complete_deposit-Answered_example :
    OnOk
      (Answered 40 (Deposits.completed (some "ref") t) (λ d. d.amount) demo)
      (Deposits.complete_deposit 40 (some "ref") t demo)
complete_deposit-Answered_example =
    complete_deposit-Answered 40 t demo demo-IsConsistent (some "ref")

-- The URL of a checkout, whatever its parameters.
abbrev url : Uuid → Decimal → String
url deposit_id amount = "https://example.org/checkout"

initiate_payfast_deposit-returns :
    is_ok (Deposits.initiate_payfast_deposit defaults round_half_up url 2 (units 70) 61 demo).0
    ≡ true
unfolding initiate_payfast_deposit create_deposit get_by_user_id_or_404 round_half_up quantize
initiate_payfast_deposit-returns = refl

initiate_payfast_deposit-Initiated_example :
    OnOk
      (Initiated defaults url 2 (units 70) 61 demo)
      (Deposits.initiate_payfast_deposit defaults round_half_up url 2 (units 70) 61 demo)
initiate_payfast_deposit-Initiated_example =
    initiate_payfast_deposit-Initiated defaults round_half_up round_half_up-cents url 2 (units 70)
      (refl, refl) 61 demo demo-IsConsistent
