-- ===== src/Tests/Settling.antt =====
-- The pending bet of the small database is ready to be settled.
use buddy_bet_v.Prelude.{ℕ, ◌^◌, ◌≡◌, refl, arith}
use buddy_bet_v.Prelude.Int.{pos, ◌+ℤ◌, ◌-ℤ◌, ◌*ℤ◌}
use buddy_bet_v.Exec.{ok}
use buddy_bet_v.Money.{safe_add, safe_subtract, safe_multiply, round_half_up, quantize}
use buddy_bet_v.Models.{Bet, Database}
use buddy_bet_v.Models.Enums.{FootballOutcome, FeeType}
use buddy_bet_v.Platform.{latest}
use buddy_bet_v.Settlement.{settle_bet, determine_path}
use buddy_bet_v.Settlement.Amounts.{compute_winner_amounts}
use buddy_bet_v.Settlement.Checks.{LedgersPositive, Checked}
use buddy_bet_v.Settlement.Ready.{IsReady, settle_bet-returns}
use buddy_bet_v.Tests.Data.{
  demo, units, rate_of, pending_one, played, platform_one, wallet_1, wallet_2,
}
use buddy_bet_v.Tests.Data.Facts.{demo-IsConsistent}

abbrev t : ℕ
t = 10 ^ 13

payout_is : (compute_winner_amounts (units 100) (pos 50000)).0 ≡ units 190
unfolding compute_winner_amounts safe_add safe_subtract safe_multiply round_half_up quantize ◌+ℤ◌
    ◌-ℤ◌ ◌*ℤ◌
payout_is = refl

fee_is : (compute_winner_amounts (units 100) (pos 50000)).1 ≡ units 10
unfolding compute_winner_amounts safe_add safe_subtract safe_multiply round_half_up quantize ◌+ℤ◌
    ◌-ℤ◌ ◌*ℤ◌
fee_is = refl

demo-IsReady : IsReady 7 t demo
unfolding latest determine_path
demo-IsReady = record {
  bet = pending_one;
  opponent = 2;
  prediction = FootballOutcome.away_win;
  row = played;
  result = FootballOutcome.home_win;
  winner_fee = rate_of FeeType.winner_fee 50000;
  no_winner_fee = rate_of FeeType.no_winner_fee 20000;
  account = platform_one;
  creator_wallet = wallet_1;
  opponent_wallet = wallet_2;
  found = refl;
  pending = refl;
  matched = refl;
  match_found = refl;
  has_result = refl;
  winner_rate = refl;
  no_winner_rate = refl;
  at_account = refl;
  at_creator = refl;
  at_opponent = refl;
  creator_covers = omega arith;
  opponent_covers = omega arith;
  stake_positive = omega arith;
  pays = rw payout_is (omega arith);
  takes_fee = rw fee_is (omega arith);
  rate_above = omega arith;
  rate_below = omega arith;
  one_wins = refl;
}

demo-LedgersPositive : LedgersPositive demo
demo-LedgersPositive = ((omega arith, (omega arith, (omega arith, (omega arith, tt)))), tt)

settle_bet-returns_example :
    (bet' : Bet) × (db' : Database) × (settle_bet 7 t demo ≡ (ok bet', db')) × Checked bet' db'
settle_bet-returns_example =
    settle_bet-returns 7 t demo demo-IsConsistent demo-LedgersPositive demo-IsReady
