-- ===== src/Settlement/Ready.antt =====
-- When `settle_bet` returns (app/services/settlement_service.py).
use buddy_bet_v.Prelude.{
  ℕ-eq, ◌≡◌, ◌≢◌, ◌!=◌, ◌^◌, true, false, refl, sym, none, some, subst, String, String-eq,
}
use buddy_bet_v.Prelude.Int.{pos, ◌<ℤ◌, ◌≤ℤ◌}
use buddy_bet_v.Exec.{Result, Exec, ok, err, ◌>>=◌}
use buddy_bet_v.Models.{Uuid, DateTime, Wallet, Match, Bet, FeeConfig, PlatformAccount, Database}
use buddy_bet_v.Models.Enums.{SettlementOutcome, FeeType, FootballOutcome, BetStatus, BetStatus-eq}
use buddy_bet_v.Table.{find-key}
use buddy_bet_v.Bets.{bet_id_of, bet_of, get_bet_or_404}
use buddy_bet_v.Matches.{match_of, get_match_or_404}
use buddy_bet_v.Wallet.{wallet_of}
use buddy_bet_v.Platform.{account_of, latest, get_active_rate}
use buddy_bet_v.Platform.Laws.{AllRates, RateOf, latest-RateOf}
use buddy_bet_v.Escrow.{IsConsistent}
use buddy_bet_v.Settlement.Sound.{matched_with-opponent}
use buddy_bet_v.Settlement.Wallets.{Collected, settle_wallets-Collected}
use buddy_bet_v.Settlement.{
  Settled, record_settlement, settle_wallets, settle_bet, determine_path, matched_with,
}
use buddy_bet_v.Exec.OnOk.{OnOk, OnOk-and, OnOk-bind}
use buddy_bet_v.Settlement.Verdict.{winner_of}
use buddy_bet_v.Settlement.Checks.{
  LedgersPositive, Checked, has_winner, won, won-checks, settle_wallets-won,
  record_settlement-Checked,
}
use buddy_bet_v.Settlement.Amounts.{compute_winner_amounts}
use buddy_bet_v.Settlement.AmountLaws.{IsRate}
use buddy_bet_v.Settlement.Returns.{Returns, Returns-bind}
use buddy_bet_v.Settlement.Live.{settle_wallets-Returns, record_settlement-Returns}

-- What `settle_bet` finds when it has to return: the bet is waiting and has its opponent, the result of
-- its match is there and one of the two predicted it, both rates are there, the one for a winner lies
-- between 0 and 1, the platform has an account of the currency, the payout and the fee are positive, and
-- the locked balances of both parties cover the stake.
pub record IsReady (bet_id : Uuid) (now : DateTime) (db : Database) : Type 0 where
  pub bet : Bet
  pub opponent : Uuid
  pub prediction : FootballOutcome
  pub row : Match
  pub result : FootballOutcome
  pub winner_fee : FeeConfig
  pub no_winner_fee : FeeConfig
  pub account : PlatformAccount
  pub creator_wallet : Wallet
  pub opponent_wallet : Wallet
  pub found : bet_of bet_id db ≡ some bet
  pub pending : bet.status ≡ BetStatus.pending_settlement
  pub matched : matched_with bet ≡ some (opponent, prediction)
  pub match_found : match_of bet.match_id db ≡ some row
  pub has_result : row.outcome ≡ some result
  pub winner_rate : latest FeeType.winner_fee bet.currency now none db.fee_config ≡ some winner_fee
  pub no_winner_rate :
      latest FeeType.no_winner_fee bet.currency now none db.fee_config ≡ some no_winner_fee
  pub at_account : account_of bet.currency db ≡ some account
  pub at_creator : wallet_of bet.creator_id db ≡ some creator_wallet
  pub at_opponent : wallet_of opponent db ≡ some opponent_wallet
  pub creator_covers : bet.stake_amount ≤ℤ creator_wallet.locked_balance
  pub opponent_covers : bet.stake_amount ≤ℤ opponent_wallet.locked_balance
  pub stake_positive : pos 0 <ℤ bet.stake_amount
  pub pays : pos 0 <ℤ (compute_winner_amounts bet.stake_amount winner_fee.rate).0
  pub takes_fee : pos 0 <ℤ (compute_winner_amounts bet.stake_amount winner_fee.rate).1
  pub rate_above : pos 0 <ℤ winner_fee.rate
  pub rate_below : winner_fee.rate <ℤ pos (10 ^ 6)
  pub one_wins : has_winner (determine_path result bet.creator_prediction prediction) ≡ true

still_pending :
    (bet : Bet)
    → bet.status ≡ BetStatus.pending_settlement
    → (bet.status != BetStatus.pending_settlement) ≡ false
still_pending bet pending = rw pending refl

rate_of :
    (fee_type : FeeType) (currency : String) (now : DateTime) (row : FeeConfig) (db : Database)
    → AllRates IsRate db.fee_config
    → latest fee_type currency now none db.fee_config ≡ some row
    → IsRate row.rate
rate_of fee_type currency now row db all found =
    subst (RateOf IsRate) found
      (latest-RateOf IsRate fee_type currency now none db.fee_config tt all)

module _ (bet_id : Uuid) (now : DateTime) (db : Database) (c : IsConsistent db) where
  -- The guards pass, and the wallets are settled.
  settle_bet-ready :
      (r : IsReady bet_id now db)
      → let outcome = determine_path r.result r.bet.creator_prediction r.prediction in
        settle_bet bet_id now db
        ≡ (settle_wallets r.bet r.opponent outcome r.winner_fee.rate r.no_winner_fee.rate >>= λ s.
              record_settlement r.bet outcome s now)
            db
  unfolding settle_bet get_bet_or_404 get_match_or_404 get_active_rate
  settle_bet-ready r =
      rw
        (
          r.found,
          still_pending r.bet r.pending,
          r.matched,
          r.match_found,
          r.has_result,
          r.winner_rate,
          r.no_winner_rate,
        )
        refl

  module _ (r : IsReady bet_id now db) where
    apart : r.bet.creator_id ≢ r.opponent
    apart =
        (c.sound.bets bet_id r.bet r.found).2 r.opponent
          (matched_with-opponent r.bet r.opponent r.prediction r.matched)

    at_key : bet_of r.bet.id db ≡ some r.bet
    at_key =
        subst (λ k. bet_of k db ≡ some r.bet)
          (sym (find-key bet_id_of bet_id r.bet db.bets r.found)) r.found

    abbrev outcome : SettlementOutcome
    outcome = determine_path r.result r.bet.creator_prediction r.prediction

    abbrev wallets_settled : Exec Database Settled
    wallets_settled = settle_wallets r.bet r.opponent outcome r.winner_fee.rate r.no_winner_fee.rate

    collected : OnOk (Collected db) (wallets_settled db)
    collected =
        let (cents, nonneg, _) = c.sound.bets bet_id r.bet r.found in
        settle_wallets-Collected r.bet db c.sound.wallets cents nonneg r.opponent outcome
          r.winner_fee.rate r.no_winner_fee.rate apart
          (rate_of FeeType.winner_fee r.bet.currency now r.winner_fee db c.sound.rates
            r.winner_rate)
          (rate_of FeeType.no_winner_fee r.bet.currency now r.no_winner_fee db c.sound.rates
            r.no_winner_rate)

    settle_bet-Returns : Returns (settle_bet bet_id now db)
    settle_bet-Returns = rw (settle_bet-ready r) (
        Returns-bind (Collected db) wallets_settled _ db
          (settle_wallets-Returns r.bet db (c.sound.bets bet_id r.bet r.found).0 r.stake_positive
            r.opponent apart
            (r.creator_wallet, r.at_creator, c.sound.wallets _ _ r.at_creator, r.creator_covers)
            (r.opponent_wallet, r.at_opponent, c.sound.wallets _ _ r.at_opponent, r.opponent_covers)
            outcome r.winner_fee.rate r.no_winner_fee.rate
            (rate_of FeeType.winner_fee r.bet.currency now r.winner_fee db c.sound.rates
              r.winner_rate)
            (rate_of FeeType.no_winner_fee r.bet.currency now r.no_winner_fee db c.sound.rates
              r.no_winner_rate)
            r.pays)
          collected
          λ s db1 ((_, _, _, frame), fee_cents, _).
            record_settlement-Returns r.bet r.pending outcome s now r.account db1 (rw frame at_key)
              (rw frame r.at_account) (rw frame c.sound.accounts) fee_cents)

    settle_bet-Checked : LedgersPositive db → OnOk Checked (settle_bet bet_id now db)
    settle_bet-Checked positive =
        let Q : Settled → Database → Type 0 = λ s db1.
          (s ≡ won r.bet (winner_of r.bet r.opponent outcome) r.winner_fee.rate)
          × LedgersPositive db1 in
        rw (settle_bet-ready r) (
          OnOk-bind Checked (λ s db1. Collected db s db1 × Q s db1) wallets_settled _ db
            (OnOk-and (Collected db) Q (wallets_settled db) collected (
              settle_wallets-won r.bet db c.sound.wallets (c.sound.bets bet_id r.bet r.found).0
                r.stake_positive r.winner_fee.rate r.pays positive r.opponent outcome
                r.no_winner_fee.rate apart r.one_wins))
            λ s db1 (((_, _, _, frame), _, _), (s_is, positive1)).
              record_settlement-Checked r.bet outcome s now db1 (rw frame at_key)
                (rw s_is r.takes_fee) positive1
                (rw s_is (
                  won-checks r.bet r.opponent outcome r.winner_fee.rate now
                    (matched_with-opponent r.bet r.opponent r.prediction r.matched) r.one_wins
                    r.pays r.takes_fee r.rate_above r.rate_below)))

returned :
    (out : Result Bet × Database)
    → Returns out
    → OnOk Checked out
    → (bet' : Bet) × (db' : Database) × (out ≡ (ok bet', db')) × Checked bet' db'
returned (ok bet', db') _ checked = (bet', db', refl, checked)
returned (err e, db') none_such checked = elim none_such [ ]

-- In a consistent database whose ledger entries have positive amounts, `settle_bet` returns, when
-- the bet is waiting for its settlement and has an opponent, its match has a result that one of them
-- predicted, both fee rates and the account of the platform are there, the rate for a winner lies
-- between 0 and 1, stake, payout and fee are positive, and the locked balances of both parties cover
-- the stake. The row that it writes passes the checks of schema.sql on winner, payout, fee and
-- rates, and the ledger entries that it writes have positive amounts.
pub settle_bet-returns :
    (bet_id : Uuid) (now : DateTime) (db : Database)
    → IsConsistent db
    → LedgersPositive db
    → IsReady bet_id now db
    → (bet' : Bet) × (db' : Database) × (settle_bet bet_id now db ≡ (ok bet', db'))
      × Checked bet' db'
settle_bet-returns bet_id now db c positive r =
    returned _ (settle_bet-Returns bet_id now db c r)
      (settle_bet-Checked bet_id now db c r positive)
