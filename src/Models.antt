-- ===== src/Models.antt =====
-- The rows of the tables (app/models/*.py) and the database as their lists. A UUID is a number that
-- is only compared, and a moment is a number of microseconds. The timestamps that the database sets
-- by itself and the free texts (notes, payloads, names) are left out.
pub mod Enums
pub mod Statuses
use buddy_bet_v.Prelude.{ℕ, String, Option, List}
use buddy_bet_v.Money.{Decimal}
use Enums.{
  UserRole, UserStatus, FootballOutcome, MatchStatus, BetStatus, SettlementOutcome, LedgerEntryType,
  BalanceField, LedgerDirection, LedgerReferenceType, PlatformEntryType, SettlementPathType,
  FeeType, DepositStatus, WithdrawalStatus, BetEventType,
}

abbrev pub Uuid : Type 0
Uuid = ℕ

abbrev pub DateTime : Type 0
DateTime = ℕ

pub record User : Type 0 where
  pub id : Uuid
  pub email : String
  pub phone_number : Option String
  pub display_name : String
  pub password_hash : String
  pub role : UserRole
  pub status : UserStatus

pub record Wallet : Type 0 where
  pub id : Uuid
  pub user_id : Uuid
  pub available_balance : Decimal
  pub locked_balance : Decimal
  pub currency : String
  pub version : ℕ

pub record LedgerEntry : Type 0 where
  pub user_id : Uuid
  pub wallet_id : Uuid
  pub entry_type : LedgerEntryType
  pub balance_field : BalanceField
  pub direction : LedgerDirection
  pub amount : Decimal
  pub reference_type : LedgerReferenceType
  pub reference_id : Uuid
  pub available_balance_after : Decimal
  pub locked_balance_after : Decimal

pub record Match : Type 0 where
  pub id : Uuid
  pub external_id : String
  pub provider_name : Option String
  pub home_team : String
  pub away_team : String
  pub competition : String
  pub kickoff_at : DateTime
  pub status : MatchStatus
  pub result_home_score : Option ℕ
  pub result_away_score : Option ℕ
  pub outcome : Option FootballOutcome
  pub result_confirmed_at : Option DateTime
  pub last_synced_at : Option DateTime

pub record Bet : Type 0 where
  pub id : Uuid
  pub match_id : Uuid
  pub creator_id : Uuid
  pub opponent_id : Option Uuid
  pub creator_prediction : FootballOutcome
  pub opponent_prediction : Option FootballOutcome
  pub stake_amount : Decimal
  pub currency : String
  pub status : BetStatus
  pub settlement_outcome : Option SettlementOutcome
  pub winner_id : Option Uuid
  pub platform_fee : Option Decimal
  pub payout_amount : Option Decimal
  pub applied_winner_fee_rate : Option Decimal
  pub applied_no_winner_fee_rate : Option Decimal
  pub expires_at : DateTime
  pub settled_at : Option DateTime

pub record BetEvent : Type 0 where
  pub bet_id : Uuid
  pub event_type : BetEventType
  pub actor_id : Option Uuid
  pub actor_label : String

pub record FeeConfig : Type 0 where
  pub fee_type : FeeType
  pub rate : Decimal
  pub currency : String
  pub effective_from : DateTime

pub record PlatformAccount : Type 0 where
  pub id : Uuid
  pub currency : String
  pub balance : Decimal
  pub version : ℕ

pub record PlatformLedgerEntry : Type 0 where
  pub platform_account_id : Uuid
  pub entry_type : PlatformEntryType
  pub direction : LedgerDirection
  pub amount : Decimal
  pub reference_type : LedgerReferenceType
  pub reference_id : Uuid
  pub balance_after : Decimal
  pub settlement_path : SettlementPathType

pub record DepositRequest : Type 0 where
  pub id : Uuid
  pub user_id : Uuid
  pub wallet_id : Uuid
  pub amount : Decimal
  pub currency : String
  pub status : DepositStatus
  pub payment_provider : Option String
  pub provider_reference : Option String
  pub client_reference : Option String
  pub checkout_url : Option String
  pub completed_at : Option DateTime
  pub failed_at : Option DateTime

pub record WithdrawalRequest : Type 0 where
  pub id : Uuid
  pub user_id : Uuid
  pub wallet_id : Uuid
  pub amount : Decimal
  pub currency : String
  pub status : WithdrawalStatus
  pub destination_account : String
  pub destination_type : Option String
  pub rejection_reason : Option String
  pub approved_at : Option DateTime
  pub completed_at : Option DateTime
  pub failed_at : Option DateTime

-- Tables that only take inserts (the ledgers and the events) list the newest row first.
pub record Database : Type 0 where
  pub users : List User
  pub wallets : List Wallet
  pub ledger_entries : List LedgerEntry
  pub matches : List Match
  pub bets : List Bet
  pub bet_events : List BetEvent
  pub fee_config : List FeeConfig
  pub platform_accounts : List PlatformAccount
  pub platform_ledger_entries : List PlatformLedgerEntry
  pub deposit_requests : List DepositRequest
  pub withdrawal_requests : List WithdrawalRequest
