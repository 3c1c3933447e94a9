-- ===== src/Settlement/Checks.antt =====
-- The checks of schema.sql that a settlement has to pass: those of the row of the bet, and those of the
-- amounts in the two ledgers (app/services/settlement_service.py).
use buddy_bet_v.Prelude.{
  ℕ-eq, ◌≡◌, ◌≢◌, refl, sym, arith, ◌&&◌, ◌^◌, Bool, true, false, Option, none, some, List, [], ◌∷◌,
  ◌==◌, beq_self,
}
use buddy_bet_v.Prelude.Int.{pos, ◌<ℤ◌, ltb_ℤ}
use buddy_bet_v.Exec.{Result, ok, err, not_found}
use buddy_bet_v.Exec.OnOk.{OnOk, OnOk-bind, OnOk-some}
use buddy_bet_v.Money.{Decimal}
use buddy_bet_v.Money.Cents.{IsCents}
use buddy_bet_v.Models.{Uuid, DateTime, Wallet, LedgerEntry, PlatformLedgerEntry, Bet, Database}
use buddy_bet_v.Models.Enums.{SettlementOutcome, creator_wins, opponent_wins, no_winner, voided}
use buddy_bet_v.Bets.{bet_of, set_bet, write_bet_event}
use buddy_bet_v.Wallet.Posting.{AllGood}
use buddy_bet_v.Wallet.Pair.{PairPosted}
use buddy_bet_v.Wallet.Transfer.{transfer_locked_funds}
use buddy_bet_v.Wallet.TransferMoves.{
  payout, winner_changes, winner_entries, transfer_locked_funds-Posted,
}
use buddy_bet_v.Platform.{account_of, get_for_currency_for_update, write_ledger_entry}
use buddy_bet_v.Platform.Laws.{credit_fee-found}
use buddy_bet_v.Settlement.{
  Settled, settle_winner, settle_wallets, collect_fee, mark_settled, record_settlement, settled_bet,
}
use buddy_bet_v.Settlement.Amounts.{compute_winner_amounts}
use buddy_bet_v.Settlement.Sound.{mark_settled-lem}
use buddy_bet_v.Settlement.Verdict.{winner_of}
use buddy_bet_v.Settlement.Once.{is_null, is_positive, payout_presence}

-- `chk_bets_platform_fee_consistency`
abbrev pub platform_fee_by : Option SettlementOutcome → Option Decimal → Bool
platform_fee_by (some voided) fee = is_null fee
platform_fee_by (some _) fee = is_positive fee
platform_fee_by none fee = true

abbrev pub is_same_user : Option Uuid → Option Uuid → Bool
is_same_user (some user) (some other) = user == other
is_same_user _ _ = false

-- `chk_bets_winner_identity`
abbrev pub winner_identity : Bet → Option SettlementOutcome → Bool
winner_identity bet (some creator_wins) = is_same_user bet.winner_id (some bet.creator_id)
winner_identity bet (some opponent_wins) = is_same_user bet.winner_id bet.opponent_id
winner_identity bet (some _) = is_null bet.winner_id
winner_identity bet none = true

-- `chk_bets_winner_fee_rate_valid` and `chk_bets_no_winner_fee_rate_valid`
abbrev pub fee_rate_valid : Option Decimal → Bool
fee_rate_valid none = true
fee_rate_valid (some rate) = ltb_ℤ (pos 0) rate && ltb_ℤ rate (pos (10 ^ 6))

abbrev pub settlement_checks : Bet → Bool
settlement_checks bet =
    payout_presence bet
    && platform_fee_by bet.settlement_outcome bet.platform_fee
    && winner_identity bet bet.settlement_outcome
    && fee_rate_valid bet.applied_winner_fee_rate
    && fee_rate_valid bet.applied_no_winner_fee_rate

-- `chk_ledger_amount_positive`, for both ledgers
abbrev pub EntriesPositive : List LedgerEntry → Type 0
EntriesPositive [] = Unit {0}
EntriesPositive (entry ∷ entries) = (pos 0 <ℤ entry.amount) × EntriesPositive entries

abbrev pub PlatformEntriesPositive : List PlatformLedgerEntry → Type 0
PlatformEntriesPositive [] = Unit {0}
PlatformEntriesPositive (entry ∷ entries) =
    (pos 0 <ℤ entry.amount) × PlatformEntriesPositive entries

abbrev pub LedgersPositive : Database → Type 0
LedgersPositive db =
    EntriesPositive db.ledger_entries × PlatformEntriesPositive db.platform_ledger_entries

abbrev pub has_winner : SettlementOutcome → Bool
has_winner creator_wins = true
has_winner opponent_wins = true
has_winner _ = false

-- What the winner's path sets.
abbrev pub won : Bet → Option Uuid → Decimal → Settled
won bet winner rate = record {
  winner_id = winner;
  payout_amount = (compute_winner_amounts bet.stake_amount rate).0;
  platform_fee_amount = (compute_winner_amounts bet.stake_amount rate).1;
  applied_winner_rate = some rate;
  applied_no_winner_rate = none;
}

posted-positive :
    (winner loser : Uuid) (stake fee : Decimal) (bet_id : Uuid) (db : Database)
    (out : Result (Wallet × Wallet) × Database)
    → PairPosted winner loser
        (winner_changes stake fee)
        (winner_entries stake (payout stake fee) bet_id)
        db
        out
    → pos 0 <ℤ stake
    → pos 0 <ℤ payout stake fee
    → LedgersPositive db
    → OnOk (λ _ db1. LedgersPositive db1) out
posted-positive winner loser stake fee bet_id db (err e, db1) h more pays positive = tt
posted-positive winner loser stake fee bet_id db (ok _, db1)
      (a, b, a', b', _, _, _, _, _, _, db1_is) more pays positive =
    rw db1_is ((pays, (more, (more, positive.0))), positive.1)

is_more : (a b : Decimal) → a <ℤ b → ltb_ℤ a b ≡ true
is_more a b h = ground (arith, h)

module _ (bet : Bet) (db : Database) (good : AllGood db) (cents : IsCents bet.stake_amount)
    (stake_positive : pos 0 <ℤ bet.stake_amount) (rate : Decimal)
    (pays : pos 0 <ℤ (compute_winner_amounts bet.stake_amount rate).0)
    (positive : LedgersPositive db) where
  -- The winner's path writes positive amounts into the ledger.
  settle_winner-won :
      (winner loser : Uuid)
      → winner ≢ loser
      → OnOk
          (λ s db1. (s ≡ won bet (some winner) rate) × LedgersPositive db1)
          (settle_winner bet winner loser rate db)
  unfolding settle_winner compute_winner_amounts
  settle_winner-won winner loser distinct =
      let fee = (compute_winner_amounts bet.stake_amount rate).1 in
      let Q : (Wallet × Wallet) → Database → Type 0 = λ _ db1. LedgersPositive db1 in
      OnOk-bind (λ s db1. (s ≡ won bet (some winner) rate) × LedgersPositive db1) Q
        (transfer_locked_funds winner loser bet.stake_amount fee bet.id) _ db
        (posted-positive winner loser bet.stake_amount fee bet.id db
          (transfer_locked_funds winner loser bet.stake_amount fee bet.id db)
          (transfer_locked_funds-Posted winner loser distinct bet.stake_amount fee bet.id db good
            cents)
          stake_positive pays positive)
        (λ _ db1 h. (refl, h))

  pub settle_wallets-won :
      (opponent : Uuid) (outcome : SettlementOutcome) (n : Decimal)
      → bet.creator_id ≢ opponent
      → has_winner outcome ≡ true
      → OnOk
          (λ s db1. (s ≡ won bet (winner_of bet opponent outcome) rate) × LedgersPositive db1)
          (settle_wallets bet opponent outcome rate n db)
  unfolding settle_wallets
  settle_wallets-won opponent creator_wins n distinct h =
      settle_winner-won bet.creator_id opponent distinct
  settle_wallets-won opponent opponent_wins n distinct h =
      settle_winner-won opponent bet.creator_id (λ e. distinct (sym e))
  settle_wallets-won opponent no_winner n distinct h = absurd (ground (arith, h))
  settle_wallets-won opponent voided n distinct h = absurd (ground (arith, h))

collect_fee-positive :
    (bet : Bet) (outcome : SettlementOutcome) (fee : Decimal) (db : Database)
    → pos 0 <ℤ fee
    → LedgersPositive db
    → OnOk (λ _ db'. (db'.bets ≡ db.bets) × LedgersPositive db') (collect_fee bet outcome fee db)
unfolding collect_fee get_for_currency_for_update write_ledger_entry
collect_fee-positive bet outcome fee db more positive =
    OnOk-some (λ _ db'. (db'.bets ≡ db.bets) × LedgersPositive db') not_found
      (account_of bet.currency db) _ db
      λ account found.
        rw (credit_fee-found bet.currency account db found fee)
          (refl, (positive.0, (more, positive.1)))

-- The settled row passes the checks, and all entries of the ledgers have positive amounts.
abbrev pub Checked : Bet → Database → Type 0
Checked bet' db' = (settlement_checks bet' ≡ true) × LedgersPositive db'

pub record_settlement-Checked :
    (bet : Bet) (outcome : SettlementOutcome) (s : Settled) (now : DateTime) (db : Database)
    → bet_of bet.id db ≡ some bet
    → pos 0 <ℤ s.platform_fee_amount
    → LedgersPositive db
    → settlement_checks (settled_bet outcome s now bet) ≡ true
    → OnOk Checked (record_settlement bet outcome s now db)
unfolding record_settlement write_bet_event
record_settlement-Checked bet outcome s now db found more positive checks =
    OnOk-bind Checked (λ _ db'. (db'.bets ≡ db.bets) × LedgersPositive db')
      (collect_fee bet outcome s.platform_fee_amount) _ db
      (collect_fee-positive bet outcome s.platform_fee_amount db more positive)
      λ _ db2 (same, positive2).
        OnOk-bind Checked
          (λ bet' db'. (bet' ≡ settled_bet outcome s now bet) × (db' ≡ set_bet bet' db2))
          (mark_settled bet outcome s now) _ db2
          (mark_settled-lem bet outcome s now db2 (rw same found))
          λ bet' db3 (bet'_is, db3_is). (rw bet'_is checks, rw db3_is positive2)

-- The row of a bet that has a winner, with a fee and a rate that the checks take.
pub won-checks :
    (bet : Bet) (opponent : Uuid) (outcome : SettlementOutcome) (rate : Decimal) (now : DateTime)
    → bet.opponent_id ≡ some opponent
    → has_winner outcome ≡ true
    → pos 0 <ℤ (compute_winner_amounts bet.stake_amount rate).0
    → pos 0 <ℤ (compute_winner_amounts bet.stake_amount rate).1
    → pos 0 <ℤ rate
    → rate <ℤ pos (10 ^ 6)
    → settlement_checks
        (settled_bet outcome (won bet (winner_of bet opponent outcome) rate) now bet)
      ≡ true
won-checks bet opponent creator_wins rate now named h pays fee above below =
    rw
      (
        is_more (pos 0) (compute_winner_amounts bet.stake_amount rate).0 pays,
        is_more (pos 0) (compute_winner_amounts bet.stake_amount rate).1 fee,
        is_more (pos 0) rate above,
        is_more rate (pos (10 ^ 6)) below,
        beq_self bet.creator_id,
      )
      refl
won-checks bet opponent opponent_wins rate now named h pays fee above below =
    rw
      (
        is_more (pos 0) (compute_winner_amounts bet.stake_amount rate).0 pays,
        is_more (pos 0) (compute_winner_amounts bet.stake_amount rate).1 fee,
        is_more (pos 0) rate above,
        is_more rate (pos (10 ^ 6)) below,
        named,
        beq_self opponent,
      )
      refl
won-checks bet opponent no_winner rate now named h pays fee above below = absurd (ground (arith, h))
won-checks bet opponent voided rate now named h pays fee above below = absurd (ground (arith, h))
