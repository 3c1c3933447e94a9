-- ===== src/Tests/Settlements.antt =====
-- The settlement of the pending bet of the small database, and of its match.
use buddy_bet_v.Settlement.{settle_without_winner}
use buddy_bet_v.Settlement.Amounts.{compute_no_winner_amounts}
use buddy_bet_v.Matches.Settlement.{
  confirm_and_settle, confirm_result, settle_each, transition_matched_to_pending,
  write_pending_events,
}
use buddy_bet_v.Ledger.{write_no_winner_entries, write_settlement_no_winner}
use buddy_bet_v.Settlement.NoWinner.{settle_no_winner}
use buddy_bet_v.Exec.{transaction}
use buddy_bet_v.Prelude.{ℕ, ◌+◌, ◌≡◌, ◌≢◌, ◌^◌, Option, refl, arith, some, none, false, [], ◌∷◌}
use buddy_bet_v.Prelude.Int.{pos}
use buddy_bet_v.Exec.{Result, ok, err, settlement_idempotency}
use buddy_bet_v.Exec.OnOk.{OnOk}
use buddy_bet_v.Money.{Decimal}
use buddy_bet_v.Models.{Uuid, Bet, Database}
use buddy_bet_v.Models.Enums.{FootballOutcome, creator_wins, no_winner}
use buddy_bet_v.Settlement.{
  settle_bet, determine_path, settle_wallets, settle_winner, record_settlement, collect_fee,
  mark_settled,
}
use buddy_bet_v.Bets.{get_bet_or_404, save_bet, write_bet_event}
use buddy_bet_v.Matches.{get_match_or_404}
use buddy_bet_v.Platform.{
  get_active_rate, latest, get_for_currency_for_update, credit_fee, write_ledger_entry,
}
use buddy_bet_v.Settlement.Amounts.{compute_winner_amounts}
use buddy_bet_v.Wallet.Transfer.{transfer_locked_funds, get_both_for_update}
use buddy_bet_v.Wallet.{get_by_user_id_for_update, update_balances}
use buddy_bet_v.Money.{
  verify_non_negative, safe_add, safe_subtract, safe_multiply, round_half_up, quantize,
}
use buddy_bet_v.Ledger.{write_settlement_winner, create_entry}
use buddy_bet_v.Prelude.Int.{◌+ℤ◌, ◌-ℤ◌, ◌*ℤ◌}
use buddy_bet_v.Settlement.{settled_bet}
use buddy_bet_v.Settlement.AmountLaws.{amounts_add_up}
use buddy_bet_v.Settlement.Verdict.{determine_path-exact}
use buddy_bet_v.Settlement.Sound.{IsSound}
use buddy_bet_v.Settlement.Once.{settle_bet-once, payout_presence, settle_bet-payout_presence}
use buddy_bet_v.Matches.Settlement.{SettlementResult}
use buddy_bet_v.Matches.Laws.{handled, confirm_and_settle-keeps}
use buddy_bet_v.Escrow.BetMoves.{Conserved}
use buddy_bet_v.Prelude.{◌↔◌}
use buddy_bet_v.Prelude.Int.{◌≤ℤ◌}
use buddy_bet_v.Models.Enums.{opponent_wins, voided}
use buddy_bet_v.Escrow.Settled.{Settles, settle_bet-Settles}
use buddy_bet_v.Tests.Data.{demo, units, pending_one, played}
use buddy_bet_v.Tests.Data.Facts.{demo-IsSound, demo-IsConsistent}

-- The moment of the settlement.
abbrev t : ℕ
t = 10 ^ 13

abbrev out : Result Bet × Database
out = settle_bet 7 t demo

abbrev summary : Result Bet → Option (Option Uuid × Option Decimal × Option Decimal)
summary (ok bet) = some (bet.winner_id, bet.payout_amount, bet.platform_fee)
summary (err e) = none

-- The creator predicted the result: he is paid 190.00 of the pool of 200.00.
pays : summary out.0 ≡ some (some 1, some (units 190), some (units 10))
unfolding settle_bet get_bet_or_404 get_match_or_404 get_active_rate latest determine_path
    settle_wallets settle_winner compute_winner_amounts transfer_locked_funds get_both_for_update
    get_by_user_id_for_update verify_non_negative update_balances write_settlement_winner
    create_entry record_settlement collect_fee get_for_currency_for_update credit_fee
    write_ledger_entry mark_settled save_bet write_bet_event safe_add safe_subtract safe_multiply
    round_half_up quantize ◌+ℤ◌ ◌-ℤ◌ ◌*ℤ◌
pays = refl

settle_bet-Settles_example : OnOk (Settles 7 demo) out
settle_bet-Settles_example = settle_bet-Settles 7 t demo demo-IsConsistent

abbrev paid : Bet
paid =
    settled_bet creator_wins
      (record {
        winner_id = some 1;
        payout_amount = units 190;
        platform_fee_amount = units 10;
        applied_winner_rate = some (pos 50000);
        applied_no_winner_rate = none;
      })
      t pending_one

returned : out ≡ (ok paid, out.1)
unfolding settle_bet get_bet_or_404 get_match_or_404 get_active_rate latest determine_path
    settle_wallets settle_winner compute_winner_amounts transfer_locked_funds get_both_for_update
    get_by_user_id_for_update verify_non_negative update_balances write_settlement_winner
    create_entry record_settlement collect_fee get_for_currency_for_update credit_fee
    write_ledger_entry mark_settled save_bet write_bet_event safe_add safe_subtract safe_multiply
    round_half_up quantize ◌+ℤ◌ ◌-ℤ◌ ◌*ℤ◌
returned = refl

settle_bet-once_example : settle_bet 7 (t + 1) out.1 ≡ (err settlement_idempotency, out.1)
settle_bet-once_example = settle_bet-once 7 t (t + 1) demo paid out.1 demo-IsSound returned

-- Had the match ended in a draw, which neither predicted, both would get 98.00 back.
abbrev drawn : Database
drawn = record demo { matches = record played { outcome = some FootballOutcome.draw } ∷ [] }

drawn-IsSound : IsSound drawn
drawn-IsSound = record {
  wallets = demo-IsSound.wallets;
  accounts = demo-IsSound.accounts;
  rates = demo-IsSound.rates;
  bets = demo-IsSound.bets;
}

abbrev refunded : Bet
refunded =
    settled_bet no_winner
      (record {
        winner_id = none;
        payout_amount = units 98;
        platform_fee_amount = units 4;
        applied_winner_rate = none;
        applied_no_winner_rate = some (pos 20000);
      })
      t pending_one

drawn-returned : settle_bet 7 t drawn ≡ (ok refunded, (settle_bet 7 t drawn).1)
unfolding settle_bet get_bet_or_404 get_match_or_404 get_active_rate latest determine_path
    settle_wallets settle_without_winner compute_no_winner_amounts settle_no_winner
    get_both_for_update get_by_user_id_for_update verify_non_negative update_balances
    write_settlement_no_winner write_no_winner_entries create_entry record_settlement collect_fee
    get_for_currency_for_update credit_fee write_ledger_entry mark_settled save_bet write_bet_event
    safe_add safe_subtract safe_multiply round_half_up quantize ◌+ℤ◌ ◌-ℤ◌ ◌*ℤ◌
drawn-returned = refl

settle_bet-payout_presence_example : payout_presence refunded ≡ false
settle_bet-payout_presence_example =
    settle_bet-payout_presence 7 t drawn refunded (settle_bet 7 t drawn).1 drawn-IsSound
      drawn-returned refl

-- The matched bet of match 6 is found and settled.
abbrev run : Result SettlementResult × Database
run = confirm_and_settle 6 FootballOutcome.home_win 2 1 99 t (λ _. t + 1) demo

all_settled :
    run.0
    ≡ ok (record {
      bets_found = 1;
      bets_settled = 1;
      bets_already_settled = 0;
      bets_failed = 0;
      failed_bet_ids = [];
    })
unfolding settle_bet get_bet_or_404 get_match_or_404 get_active_rate latest determine_path
    settle_wallets settle_winner compute_winner_amounts transfer_locked_funds get_both_for_update
    get_by_user_id_for_update verify_non_negative update_balances write_settlement_winner
    create_entry record_settlement collect_fee get_for_currency_for_update credit_fee
    write_ledger_entry mark_settled save_bet write_bet_event safe_add safe_subtract safe_multiply
    round_half_up quantize ◌+ℤ◌ ◌-ℤ◌ ◌*ℤ◌ confirm_and_settle confirm_result settle_each transaction
    transition_matched_to_pending write_pending_events
all_settled = refl

confirm_and_settle-keeps_example : Conserved demo run.1 × OnOk (λ r _. handled r ≡ r.bets_found) run
confirm_and_settle-keeps_example =
    confirm_and_settle-keeps 6 FootballOutcome.home_win 2 1 99 t (λ _. t + 1) demo demo-IsConsistent

determine_path-exact_example :
    let path =
      determine_path FootballOutcome.home_win FootballOutcome.home_win FootballOutcome.draw in
    ((path ≡ creator_wins) ↔ (FootballOutcome.home_win ≡ FootballOutcome.home_win))
    × ((path ≡ opponent_wins) ↔ (
        (FootballOutcome.home_win ≢ FootballOutcome.home_win)
        × (FootballOutcome.draw ≡ FootballOutcome.home_win)))
    × ((path ≡ no_winner) ↔ (
        (FootballOutcome.home_win ≢ FootballOutcome.home_win)
        × (FootballOutcome.draw ≢ FootballOutcome.home_win)))
    × (path ≢ voided)
determine_path-exact_example =
    determine_path-exact FootballOutcome.home_win FootballOutcome.home_win FootballOutcome.draw

-- A stake of 33.33 at five per cent.
amounts_add_up_example :
    let (payout, fee) = compute_winner_amounts (pos 33330000) (pos 50000) in
    let (refund, fee_per_user) = compute_no_winner_amounts (pos 33330000) (pos 50000) in
    (payout +ℤ fee ≡ pos 33330000 +ℤ pos 33330000)
    × (pos 0 ≤ℤ payout)
    × (pos 0 ≤ℤ fee)
    × (refund +ℤ fee_per_user ≡ pos 33330000)
    × (pos 0 ≤ℤ refund)
    × (pos 0 ≤ℤ fee_per_user)
amounts_add_up_example =
    amounts_add_up (pos 33330000) (pos 50000) (refl, refl) (omega arith) (omega arith, omega arith)
