-- ===== src/Tests/Data.antt =====
-- A small consistent database: two users, a bet of each status that a service works on, a pending
-- and an approved withdrawal, and a deposit. Amounts are in millionths.
pub mod Facts
use buddy_bet_v.Prelude.{
  ℕ, ℕ-eq, String, ◌*◌, ◌^◌, ◌≡◌, refl, arith, none, some, List, [], ◌∷◌, ◌++◌, true,
}
use buddy_bet_v.Prelude.Int.{ℤ, pos, ◌+ℤ◌, ◌-ℤ◌, ◌≤ℤ◌}
use buddy_bet_v.Money.{Decimal}
use buddy_bet_v.Models.{
  Uuid, User, Wallet, LedgerEntry, Match, Bet, FeeConfig, PlatformAccount, DepositRequest,
  WithdrawalRequest, Database,
}
use buddy_bet_v.Models.Enums.{
  UserRole, UserStatus, FootballOutcome, MatchStatus, BetStatus, FeeType, DepositStatus,
  LedgerEntryType, LedgerReferenceType, available, locked, credit,
}
use buddy_bet_v.Config.{Settings}
use buddy_bet_v.Ledger.{entry_for}
use buddy_bet_v.Bets.Service.{new_bet, matched_bet}
use buddy_bet_v.Matches.Settlement.{pending_bet}
use buddy_bet_v.Withdrawals.{new_withdrawal, approved}
use buddy_bet_v.Deposits.{new_deposit}

abbrev pub units : ℕ → Decimal
units n = pos (n * 10 ^ 6)

abbrev pub user_1 : User
user_1 = record {
  id = 1;
  email = "one@example.org";
  phone_number = none;
  display_name = "User";
  password_hash = "hash";
  role = UserRole.user;
  status = UserStatus.active;
}

abbrev pub user_2 : User
user_2 = record {
  id = 2;
  email = "two@example.org";
  phone_number = none;
  display_name = "User";
  password_hash = "hash";
  role = UserRole.user;
  status = UserStatus.active;
}

abbrev pub wallet_1 : Wallet
wallet_1 = record {
  id = 11;
  user_id = 1;
  available_balance = units 500;
  locked_balance = units 175;
  currency = "ZAR";
  version = 3;
}

abbrev pub wallet_2 : Wallet
wallet_2 = record {
  id = 12;
  user_id = 2;
  available_balance = units 300;
  locked_balance = units 153;
  currency = "ZAR";
  version = 2;
}

abbrev booked : Wallet → List LedgerEntry
booked wallet =
    entry_for wallet LedgerEntryType.deposit available credit wallet.available_balance
      LedgerReferenceType.deposit 90
    ∷ entry_for wallet LedgerEntryType.stake_lock locked credit wallet.locked_balance
        LedgerReferenceType.bet 91
    ∷ []

abbrev pub match_with : Uuid → MatchStatus → Match
match_with id status = record {
  id = id;
  external_id = "ext";
  provider_name = none;
  home_team = "Home";
  away_team = "Away";
  competition = "Cup";
  kickoff_at = 10 ^ 12;
  status = status;
  result_home_score = none;
  result_away_score = none;
  outcome = none;
  result_confirmed_at = none;
  last_synced_at = none;
}

-- The match of the pending bet has a result; the match of the open bet is scheduled.
abbrev pub played : Match
played = record (match_with 5 MatchStatus.completed) { outcome = some FootballOutcome.home_win }

abbrev pub scheduled : Match
scheduled = match_with 6 MatchStatus.scheduled

abbrev pub open_one : Bet
open_one = new_bet 8 6 1 FootballOutcome.draw (units 20) "ZAR" (10 ^ 12)

abbrev pub matched_one : Bet
matched_one =
    matched_bet 2 FootballOutcome.away_win
      (new_bet 9 6 1 FootballOutcome.home_win (units 50) "ZAR" (10 ^ 12))

abbrev pub pending_one : Bet
pending_one = pending_bet (
    matched_bet 2 FootballOutcome.away_win
      (new_bet 7 5 1 FootballOutcome.home_win (units 100) "ZAR" (10 ^ 12)))

abbrev pub withdrawal_one : WithdrawalRequest
withdrawal_one = new_withdrawal 30 1 11 (units 5) "ZAR" "account" none

abbrev pub withdrawal_two : WithdrawalRequest
withdrawal_two = approved 0 (new_withdrawal 31 2 12 (units 3) "ZAR" "account" none)

abbrev pub deposit_one : DepositRequest
deposit_one = new_deposit 40 2 12 (units 70) "ZAR" none none

abbrev pub rate_of : FeeType → ℕ → FeeConfig
rate_of fee_type rate = record {
  fee_type = fee_type;
  rate = pos rate;
  currency = "ZAR";
  effective_from = 0;
}

abbrev pub platform_one : PlatformAccount
platform_one = record { id = 20; currency = "ZAR"; balance = units 40; version = 1 }

-- Five per cent of the pool for a winner, two per cent of each stake without one.
abbrev pub demo : Database
demo = record {
  users = user_1 ∷ user_2 ∷ [];
  wallets = wallet_1 ∷ wallet_2 ∷ [];
  ledger_entries = booked wallet_1 ++ booked wallet_2;
  matches = played ∷ scheduled ∷ [];
  bets = pending_one ∷ open_one ∷ matched_one ∷ [];
  bet_events = [];
  fee_config = rate_of FeeType.winner_fee 50000 ∷ rate_of FeeType.no_winner_fee 20000 ∷ [];
  platform_accounts = platform_one ∷ [];
  platform_ledger_entries = [];
  deposit_requests = deposit_one ∷ [];
  withdrawal_requests = withdrawal_one ∷ withdrawal_two ∷ [];
}

abbrev pub defaults : Settings
defaults = record {
  platform_currency = "ZAR";
  min_stake_amount = units 10;
  max_stake_amount = units 10000;
  bet_creation_cutoff_minutes = 15;
  payfast_enabled = true;
}
