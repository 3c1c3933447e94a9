-- ===== src/Settlement.antt =====
-- app/services/settlement_service.py: the settlement of one bet.
pub mod Checks
pub mod Ready
pub mod Live
pub mod Returns
pub mod NoWinner
pub mod Amounts
pub mod Laws
pub mod Sound
pub mod Release
pub mod Locks
pub mod Once
pub mod Verdict
pub mod Wallets
pub mod NoWinnerMoves
pub mod AmountLaws
use buddy_bet_v.Prelude.{Option, none, some, String, Bool, true, false, ◌==◌, ◌!=◌, if◌then◌else◌}
use buddy_bet_v.Exec.{
  Exec, gets, pure, raise, raise_if, some_or_raise, validation, settlement_idempotency, ◌>>=◌, ◌>>◌,
}
use buddy_bet_v.Money.{Decimal, safe_add}
use buddy_bet_v.Models.{Uuid, DateTime, Bet, Database}
use buddy_bet_v.Models.Enums
use buddy_bet_v.Models.Enums.{
  FootballOutcome, FootballOutcome-eq, BetStatus, BetStatus-eq, SettlementOutcome, BetEventType,
  FeeType, PlatformEntryType, SettlementPathType, creator_wins, opponent_wins, no_winner, voided,
}
use buddy_bet_v.Bets.{bet_of, get_bet_or_404, save_bet, write_bet_event}
use buddy_bet_v.Matches.{get_match_or_404}
use buddy_bet_v.Platform.{
  get_active_rate, get_for_currency_for_update, credit_fee, write_ledger_entry,
}
use buddy_bet_v.Wallet.Transfer.{transfer_locked_funds}
use NoWinner.{settle_no_winner}
use Amounts.{compute_winner_amounts, compute_no_winner_amounts}

unfoldable pub determine_path :
    FootballOutcome → FootballOutcome → FootballOutcome → SettlementOutcome
determine_path match_outcome creator_prediction opponent_prediction =
    if creator_prediction == match_outcome
    then creator_wins
    else if opponent_prediction == match_outcome
    then opponent_wins
    else no_winner

-- The variables that the two settlement paths set.
pub record Settled : Type 0 where
  pub winner_id : Option Uuid
  pub payout_amount : Decimal
  pub platform_fee_amount : Decimal
  pub applied_winner_rate : Option Decimal
  pub applied_no_winner_rate : Option Decimal

unfoldable pub settle_winner : Bet → Uuid → Uuid → Decimal → Exec Database Settled
unfolding compute_winner_amounts
settle_winner bet winner_id loser_id winner_fee_rate = do
  let (winner_payout, platform_fee) = compute_winner_amounts bet.stake_amount winner_fee_rate
  transfer_locked_funds winner_id loser_id bet.stake_amount platform_fee bet.id
  pure (record {
    winner_id = some winner_id;
    payout_amount = winner_payout;
    platform_fee_amount = platform_fee;
    applied_winner_rate = some winner_fee_rate;
    applied_no_winner_rate = none;
  })

unfoldable pub settle_without_winner : Bet → Uuid → Decimal → Exec Database Settled
unfolding compute_no_winner_amounts
settle_without_winner bet opponent_id no_winner_fee_rate = do
  let (refund_per_user, fee_per_user) =
      compute_no_winner_amounts bet.stake_amount no_winner_fee_rate
  let total_platform_fee = safe_add fee_per_user fee_per_user
  settle_no_winner bet.creator_id opponent_id bet.stake_amount fee_per_user refund_per_user bet.id
  pure (record {
    winner_id = none;
    payout_amount = refund_per_user;
    platform_fee_amount = total_platform_fee;
    applied_winner_rate = none;
    applied_no_winner_rate = some no_winner_fee_rate;
  })

-- Steps 7 to 9: the branch on the outcome.
unfoldable pub settle_wallets :
    Bet → Uuid → SettlementOutcome → Decimal → Decimal → Exec Database Settled
settle_wallets bet opponent_id creator_wins winner_rate no_winner_rate =
    settle_winner bet bet.creator_id opponent_id winner_rate
settle_wallets bet opponent_id opponent_wins winner_rate no_winner_rate =
    settle_winner bet opponent_id bet.creator_id winner_rate
settle_wallets bet opponent_id no_winner winner_rate no_winner_rate =
    settle_without_winner bet opponent_id no_winner_rate
settle_wallets bet opponent_id voided winner_rate no_winner_rate =
    settle_without_winner bet opponent_id no_winner_rate

abbrev pub entry_type_of : SettlementOutcome → PlatformEntryType
entry_type_of no_winner = PlatformEntryType.fee_collection_no_winner
entry_type_of _ = PlatformEntryType.fee_collection

abbrev pub path_of : SettlementOutcome → SettlementPathType
path_of no_winner = SettlementPathType.no_winner
path_of _ = SettlementPathType.winner

-- Step 10.
unfoldable pub collect_fee : Bet → SettlementOutcome → Decimal → Exec Database (Unit {0})
collect_fee bet outcome amount = do
  account ← get_for_currency_for_update bet.currency
  account' ← credit_fee account amount
  write_ledger_entry account' amount bet.id (entry_type_of outcome) (path_of outcome)

-- The values of the conditional update.
abbrev pub settled_bet : SettlementOutcome → Settled → DateTime → Bet → Bet
settled_bet outcome s now bet = record bet {
  status = BetStatus.settled;
  settlement_outcome = some outcome;
  winner_id = s.winner_id;
  payout_amount = some s.payout_amount;
  platform_fee = some s.platform_fee_amount;
  applied_winner_fee_rate = s.applied_winner_rate;
  applied_no_winner_fee_rate = s.applied_no_winner_rate;
  settled_at = some now;
}

-- Step 11: `UPDATE bets … WHERE id = ? AND status = 'PENDING_SETTLEMENT'`; no row, no settlement.
unfoldable pub mark_settled : Bet → SettlementOutcome → Settled → DateTime → Exec Database Bet
unfolding save_bet
mark_settled bet outcome s now = do
  row ← gets (bet_of bet.id)
  current ← some_or_raise settlement_idempotency row
  raise_if (current.status != BetStatus.pending_settlement) settlement_idempotency
  save_bet (settled_bet outcome s now current)
  pure (settled_bet outcome s now current)

-- Step 3: the opponent and the prediction, if both are there.
abbrev pub matched_with : Bet → Option (Uuid × FootballOutcome)
matched_with bet = elim bet.opponent_id [
  | none ↦ none
  | some opponent ↦ elim bet.opponent_prediction [
    | none ↦ none
    | some prediction ↦ some (opponent, prediction)
  ]
]

-- Steps 10 to 12.
unfoldable pub record_settlement : Bet → SettlementOutcome → Settled → DateTime → Exec Database Bet
unfolding write_bet_event
record_settlement bet outcome s now = do
  collect_fee bet outcome s.platform_fee_amount
  bet' ← mark_settled bet outcome s now
  write_bet_event bet.id BetEventType.settled none "SETTLEMENT_ENGINE"
  pure bet'

unfoldable pub settle_bet : Uuid → DateTime → Exec Database Bet
settle_bet bet_id now = do
  bet ← get_bet_or_404 bet_id
  raise_if (bet.status != BetStatus.pending_settlement) settlement_idempotency
  (opponent_id, opponent_prediction) ← some_or_raise validation (matched_with bet)
  row ← get_match_or_404 bet.match_id
  match_outcome ← some_or_raise validation row.outcome
  winner_fee_rate ← get_active_rate FeeType.winner_fee bet.currency now
  no_winner_fee_rate ← get_active_rate FeeType.no_winner_fee bet.currency now
  let outcome = determine_path match_outcome bet.creator_prediction opponent_prediction
  s ← settle_wallets bet opponent_id outcome winner_fee_rate no_winner_fee_rate
  record_settlement bet outcome s now
