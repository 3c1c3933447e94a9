-- ===== src/Escrow.antt =====
-- The money that is held: the locked balance of a user is the stakes of his bets that are not over,
-- and the withdrawals that are not decided. The invariant that the services keep together.
pub mod Post
pub mod Holds
pub mod BetMoves
pub mod Settled
pub mod Creation
pub mod Requests
pub mod Withdrawals
pub mod Deposits
pub mod Intake
pub mod Payments
pub mod Credited
pub mod Races
use buddy_bet_v.Prelude.{
  ℕ-eq, ◌≡◌, Bool, true, false, Option, none, some, ◌&&◌, ◌==◌, if◌then◌else◌,
}
use buddy_bet_v.Prelude.Int.{pos, ◌+ℤ◌}
use buddy_bet_v.Table.{total}
use buddy_bet_v.Money.{Decimal}
use buddy_bet_v.Money.Cents.{IsCents}
use buddy_bet_v.Models.{Uuid, Wallet, Bet, WithdrawalRequest, DepositRequest, Database}
use buddy_bet_v.Models.Enums.{BetStatus}
use buddy_bet_v.Models.Statuses.{is_hold_state}
use buddy_bet_v.Wallet.{wallet_of}
use buddy_bet_v.Wallet.Reconcile.{IsReconciled}
use buddy_bet_v.Withdrawals.{withdrawal_of}
use buddy_bet_v.Deposits.{deposit_of}
use buddy_bet_v.Settlement.Sound.{IsSound}

-- The stake of the creator is held until the bet is over.
abbrev pub holds_creator : BetStatus → Bool
holds_creator BetStatus.open_bet = true
holds_creator BetStatus.matched = true
holds_creator BetStatus.pending_settlement = true
holds_creator BetStatus.under_review = true
holds_creator _ = false

-- The stake of the opponent is held from the acceptance on.
abbrev pub holds_opponent : BetStatus → Bool
holds_opponent BetStatus.matched = true
holds_opponent BetStatus.pending_settlement = true
holds_opponent BetStatus.under_review = true
holds_opponent _ = false

abbrev pub is_user : Uuid → Option Uuid → Bool
is_user user none = false
is_user user (some other) = user == other

abbrev pub bet_hold : Uuid → Bet → Decimal
bet_hold user bet =
    (if holds_creator bet.status && user == bet.creator_id then bet.stake_amount else pos 0)
    +ℤ (if holds_opponent bet.status && is_user user bet.opponent_id
        then bet.stake_amount
        else pos 0)

abbrev pub request_hold : Uuid → WithdrawalRequest → Decimal
request_hold user withdrawal =
    if is_hold_state withdrawal.status && user == withdrawal.user_id
    then withdrawal.amount
    else pos 0

abbrev pub held : Uuid → Database → Decimal
held user db = total (bet_hold user) db.bets +ℤ total (request_hold user) db.withdrawal_requests

abbrev pub IsEscrowed : Database → Type 0
IsEscrowed db =
    (user : Uuid) (wallet : Wallet)
    → wallet_of user db ≡ some wallet
    → wallet.locked_balance ≡ held user db

abbrev pub WithdrawalsGood : Database → Type 0
WithdrawalsGood db =
    (withdrawal_id : Uuid) (withdrawal : WithdrawalRequest)
    → withdrawal_of withdrawal_id db ≡ some withdrawal
    → IsCents withdrawal.amount

abbrev pub DepositsGood : Database → Type 0
DepositsGood db =
    (deposit_id : Uuid) (deposit : DepositRequest)
    → deposit_of deposit_id db ≡ some deposit
    → IsCents deposit.amount

-- The database is sound, every balance is what its ledger says, every locked balance is what is held,
-- and the amounts of the requests are whole cents.
pub record IsConsistent (db : Database) : Type 0 where
  pub sound : IsSound db
  pub reconciled : IsReconciled db
  pub escrowed : IsEscrowed db
  pub withdrawals : WithdrawalsGood db
  pub deposits : DepositsGood db
