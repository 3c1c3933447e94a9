-- ===== src/Bets/Service.antt =====
-- app/services/bet_service.py: a bet is created, accepted and cancelled. The id of a new row and the
-- moment of the call are arguments. `numeric` is what the database makes of an amount that it stores
-- in a column of two decimal places and that is read again.
use buddy_bet_v.Prelude.{ℕ, ◌+◌, ◌*◌, ◌^◌, ℕ-eq, none, some, ◌∷◌, String, leb, ◌==◌, ◌!=◌}
use buddy_bet_v.Prelude.Int.{pos, leb_ℤ, ltb_ℤ}
use buddy_bet_v.Exec.{
  Exec, pure, modify, raise_if, forbidden, validation, bet_not_available, bet_expired, self_bet,
  prediction_conflict, match_not_available, account_ineligible, ◌>>=◌, ◌>>◌,
}
use buddy_bet_v.Config.{Settings}
use buddy_bet_v.Money.{Decimal}
use buddy_bet_v.Models.{Uuid, DateTime, User, Bet, Database}
use buddy_bet_v.Models.Enums.{
  UserStatus, UserStatus-eq, FootballOutcome, FootballOutcome-eq, MatchStatus, MatchStatus-eq,
  BetStatus, BetStatus-eq, BetEventType,
}
use buddy_bet_v.Bets.{get_bet_or_404, save_bet, write_bet_event}
use buddy_bet_v.Matches.{get_match_or_404}
use buddy_bet_v.Wallet.Stakes.{lock_stake, unlock_stake}

-- `timedelta(minutes=n)` in microseconds
abbrev pub minutes : ℕ → ℕ
minutes n = n * (60 * 10 ^ 6)

-- A row of the table is added, with the columns that the constructor does not set left null.
abbrev pub new_bet : Uuid → Uuid → Uuid → FootballOutcome → Decimal → String → DateTime → Bet
new_bet new_id match_id creator_id creator_prediction stake currency kickoff = record {
  id = new_id;
  match_id = match_id;
  creator_id = creator_id;
  opponent_id = none;
  creator_prediction = creator_prediction;
  opponent_prediction = none;
  stake_amount = stake;
  currency = currency;
  status = BetStatus.open_bet;
  settlement_outcome = none;
  winner_id = none;
  platform_fee = none;
  payout_amount = none;
  applied_winner_fee_rate = none;
  applied_no_winner_fee_rate = none;
  expires_at = kickoff;
  settled_at = none;
}

abbrev pub add_bet : Bet → Database → Database
add_bet bet db = record db { bets = bet ∷ db.bets }

module _ (settings : Settings) (numeric : Decimal → Decimal) where
  unfoldable pub create_bet :
      User → Uuid → FootballOutcome → Decimal → Uuid → DateTime → Exec Database Bet
  unfolding write_bet_event
  create_bet creator match_id creator_prediction stake new_id now = do
    raise_if (creator.status != UserStatus.active) account_ineligible
    row ← get_match_or_404 match_id
    raise_if (row.status != MatchStatus.scheduled) match_not_available
    raise_if (leb row.kickoff_at (now + minutes settings.bet_creation_cutoff_minutes))
        match_not_available
    raise_if (leb_ℤ stake (pos 0)) validation
    raise_if (ltb_ℤ stake settings.min_stake_amount) validation
    raise_if (ltb_ℤ settings.max_stake_amount stake) validation
    let bet =
        new_bet new_id match_id creator.id creator_prediction (numeric stake)
          settings.platform_currency row.kickoff_at
    modify (add_bet bet)
    lock_stake creator.id stake bet.id
    write_bet_event bet.id BetEventType.created (some creator.id) "USER"
    pure bet

abbrev pub matched_bet : Uuid → FootballOutcome → Bet → Bet
matched_bet opponent_id opponent_prediction bet = record bet {
  opponent_id = some opponent_id;
  opponent_prediction = some opponent_prediction;
  status = BetStatus.matched;
}

unfoldable pub accept_bet : User → Uuid → FootballOutcome → DateTime → Exec Database Bet
unfolding save_bet write_bet_event
accept_bet opponent bet_id opponent_prediction now = do
  raise_if (opponent.status != UserStatus.active) account_ineligible
  bet ← get_bet_or_404 bet_id
  raise_if (bet.status != BetStatus.open_bet) bet_not_available
  raise_if (leb bet.expires_at now) bet_expired
  raise_if (opponent.id == bet.creator_id) self_bet
  raise_if (opponent_prediction == bet.creator_prediction) prediction_conflict
  lock_stake opponent.id bet.stake_amount bet.id
  let bet' = matched_bet opponent.id opponent_prediction bet
  save_bet bet'
  write_bet_event bet.id BetEventType.matched (some opponent.id) "USER"
  pure bet'

abbrev pub cancelled_bet : Bet → Bet
cancelled_bet bet = record bet { status = BetStatus.cancelled }

unfoldable pub cancel_bet : User → Uuid → Exec Database Bet
unfolding save_bet write_bet_event
cancel_bet requester bet_id = do
  bet ← get_bet_or_404 bet_id
  raise_if (bet.creator_id != requester.id) forbidden
  raise_if (bet.status != BetStatus.open_bet) bet_not_available
  unlock_stake bet.creator_id bet.stake_amount bet.id
  save_bet (cancelled_bet bet)
  write_bet_event bet.id BetEventType.cancelled (some requester.id) "USER"
  pure (cancelled_bet bet)
