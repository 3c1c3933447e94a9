-- ===== src/Settlement/Verdict.antt =====
-- Who wins a bet (app/services/settlement_service.py), and what the checks of the table of bets
-- (schema.sql) say about a settled row.
use buddy_bet_v.Prelude.{ℕ-eq, ◌≡◌, ◌≢◌, ◌↔◌, refl, some, none, Option, arith}
use buddy_bet_v.Exec.OnOk.{OnOk, OnOk-after}
use buddy_bet_v.Money.{Decimal}
use buddy_bet_v.Models.{Uuid, Bet, Match, Database}
use buddy_bet_v.Models.Enums.{
  FootballOutcome, FootballOutcome-eq, SettlementOutcome, creator_wins, opponent_wins, no_winner,
  voided,
}
use buddy_bet_v.Bets.{bet_of}
use buddy_bet_v.Matches.{match_of}
use buddy_bet_v.Settlement.{
  settle_winner, settle_without_winner, settle_wallets, determine_path, matched_with,
}
use buddy_bet_v.Wallet.Transfer.{transfer_locked_funds}
use buddy_bet_v.Settlement.Amounts.{compute_winner_amounts, compute_no_winner_amounts}
use buddy_bet_v.Settlement.NoWinner.{settle_no_winner}

module _ (result creator opponent : FootballOutcome) where
  -- The creator wins exactly when he predicted the result, the opponent exactly when he and not the
  -- creator did, and there is no winner exactly when neither did; a bet is never voided.
  pub determine_path-exact :
      ((determine_path result creator opponent ≡ creator_wins) ↔ (creator ≡ result))
      × ((determine_path result creator opponent ≡ opponent_wins)
          ↔ ((creator ≢ result) × (opponent ≡ result)))
      × ((determine_path result creator opponent ≡ no_winner)
          ↔ ((creator ≢ result) × (opponent ≢ result)))
      × (determine_path result creator opponent ≢ voided)
  unfolding determine_path
  determine_path-exact = ground (
    arith,
    FootballOutcome-eq.equal_iff creator result,
    FootballOutcome-eq.equal_iff opponent result,
  )

-- The user whom an outcome names.
abbrev pub winner_of : Bet → Uuid → SettlementOutcome → Option Uuid
winner_of bet opponent creator_wins = some bet.creator_id
winner_of bet opponent opponent_wins = some opponent
winner_of bet opponent no_winner = none
winner_of bet opponent voided = none

module _ (bet : Bet) (db : Database) where
  settle_winner-winner :
      (winner loser : Uuid) (rate : Decimal)
      → OnOk (λ s _. s.winner_id ≡ some winner) (settle_winner bet winner loser rate db)
  unfolding settle_winner
  settle_winner-winner winner loser rate =
      OnOk-after (λ s _. s.winner_id ≡ some winner)
        (transfer_locked_funds winner loser bet.stake_amount
          (compute_winner_amounts bet.stake_amount rate).1 bet.id)
        _ db (λ _ _. refl)

  settle_without_winner-winner :
      (opponent : Uuid) (rate : Decimal)
      → OnOk (λ s _. s.winner_id ≡ none) (settle_without_winner bet opponent rate db)
  unfolding settle_without_winner
  settle_without_winner-winner opponent rate =
      let (refund, fee) = compute_no_winner_amounts bet.stake_amount rate in
      OnOk-after (λ s _. s.winner_id ≡ none)
        (settle_no_winner bet.creator_id opponent bet.stake_amount fee refund bet.id) _ db
        (λ _ _. refl)

  pub settle_wallets-winner :
      (opponent : Uuid) (outcome : SettlementOutcome) (winner_rate no_winner_rate : Decimal)
      → OnOk
          (λ s _. s.winner_id ≡ winner_of bet opponent outcome)
          (settle_wallets bet opponent outcome winner_rate no_winner_rate db)
  unfolding settle_wallets
  settle_wallets-winner opponent creator_wins w n = settle_winner-winner bet.creator_id opponent w
  settle_wallets-winner opponent opponent_wins w n = settle_winner-winner opponent bet.creator_id w
  settle_wallets-winner opponent no_winner w n = settle_without_winner-winner opponent n
  settle_wallets-winner opponent voided w n = settle_without_winner-winner opponent n

-- What the settled bet says: the outcome that the result of its match decides, its winner, and an
-- amount paid out.
abbrev pub Verdict : Uuid → Database → Bet → Type 0
Verdict bet_id db bet' =
    (bet : Bet) × (opponent : Uuid) × (prediction : FootballOutcome) × (row : Match)
    × (result : FootballOutcome) × (bet_of bet_id db ≡ some bet)
    × (matched_with bet ≡ some (opponent, prediction))
    × (match_of bet.match_id db ≡ some row)
    × (row.outcome ≡ some result)
    × (let outcome = determine_path result bet.creator_prediction prediction in
        (bet'.settlement_outcome ≡ some outcome)
        × (bet'.winner_id ≡ winner_of bet opponent outcome)
        × ((amount : Decimal) × (bet'.payout_amount ≡ some amount)))
