-- ===== src/Settlement/Live.antt =====
-- The steps of `settle_bet` return (app/services/settlement_service.py).
use buddy_bet_v.Prelude.{ℕ-eq, ◌≡◌, ◌≢◌, sym, some, arith, String-eq}
use buddy_bet_v.Prelude.Int.{pos, ◌-ℤ◌, ◌<ℤ◌, ◌≤ℤ◌, int_laws}
use buddy_bet_v.Money.{Decimal}
use buddy_bet_v.Money.Cents.{IsCents, IsCents-safe_subtract}
use buddy_bet_v.Models.{Uuid, DateTime, Wallet, Bet, PlatformAccount, Database}
use buddy_bet_v.Models.Enums.{
  SettlementOutcome, creator_wins, opponent_wins, no_winner, voided, BetStatus, BetStatus-eq,
}
use buddy_bet_v.Bets.{bet_of, save_bet, write_bet_event}
use buddy_bet_v.Wallet.{wallet_of}
use buddy_bet_v.Wallet.Posting.{IsGood}
use buddy_bet_v.Wallet.Transfer.{transfer_locked_funds}
use buddy_bet_v.Platform.{account_of, get_for_currency_for_update, write_ledger_entry}
use buddy_bet_v.Platform.Laws.{AccountsGood, credit_fee-found}
use buddy_bet_v.Settlement.Sound.{FeeCollected, collect_fee-FeeCollected}
use buddy_bet_v.Settlement.{
  Settled, settle_winner, settle_without_winner, settle_wallets, collect_fee, mark_settled,
  record_settlement,
}
use buddy_bet_v.Settlement.NoWinner.{settle_no_winner}
use buddy_bet_v.Settlement.Amounts.{compute_winner_amounts, compute_no_winner_amounts}
use buddy_bet_v.Settlement.AmountLaws.{
  IsRate, compute_winner_amounts_lem, compute_no_winner_amounts_lem,
}
use buddy_bet_v.Settlement.Returns.{
  Returns, Returns-bind, Returns-then, transfer_locked_funds-Returns, settle_no_winner-Returns,
}

-- The wallet of a party, whose locked balance covers the stake.
abbrev pub Covers : Bet → Database → Uuid → Type 0
Covers bet db user =
    (w : Wallet) × (wallet_of user db ≡ some w) × IsGood w × (bet.stake_amount ≤ℤ w.locked_balance)

refund_not_negative :
    (stake fee refund : Decimal) → refund ≡ stake -ℤ fee → fee ≤ℤ stake → pos 0 ≤ℤ refund
refund_not_negative stake fee refund e h = rw e (omega int_laws)

module _ (bet : Bet) (db : Database) (cents : IsCents bet.stake_amount)
    (stake_positive : pos 0 <ℤ bet.stake_amount) where
  nonneg : pos 0 ≤ℤ bet.stake_amount
  nonneg = ground (arith, stake_positive)

  settle_winner-Returns :
      (winner loser : Uuid)
      → winner ≢ loser
      → Covers bet db winner
      → Covers bet db loser
      → (rate : Decimal) → IsRate rate
      → pos 0 <ℤ (compute_winner_amounts bet.stake_amount rate).0
      → Returns (settle_winner bet winner loser rate db)
  unfolding settle_winner compute_winner_amounts
  settle_winner-Returns winner loser distinct (a, at_a, a_good, a_covers)
        (b, at_b, b_good, b_covers) rate bounds pays =
      let (payout_is, fee_nonneg, fee_le, fee_cents) =
        compute_winner_amounts_lem bet.stake_amount rate cents nonneg bounds in
      Returns-then
        (transfer_locked_funds winner loser bet.stake_amount
          (compute_winner_amounts bet.stake_amount rate).1 bet.id)
        _ db
        (transfer_locked_funds-Returns winner loser distinct bet.stake_amount a b db at_a at_b
          a_good b_good cents a_covers b_covers (compute_winner_amounts bet.stake_amount rate).1
          bet.id stake_positive fee_nonneg pays (IsCents-safe_subtract _ _))
        (λ _ _. tt)

  settle_without_winner-Returns :
      (opponent : Uuid)
      → bet.creator_id ≢ opponent
      → Covers bet db bet.creator_id
      → Covers bet db opponent
      → (rate : Decimal) → IsRate rate
      → Returns (settle_without_winner bet opponent rate db)
  unfolding settle_without_winner
  settle_without_winner-Returns opponent distinct (a, at_a, a_good, a_covers)
        (b, at_b, b_good, b_covers) rate bounds =
      let (refund_is, fee_nonneg, fee_le, fee_cents) =
        compute_no_winner_amounts_lem bet.stake_amount rate cents nonneg bounds in
      let (refund, fee) = compute_no_winner_amounts bet.stake_amount rate in
      Returns-then (settle_no_winner bet.creator_id opponent bet.stake_amount fee refund bet.id) _
        db
        (settle_no_winner-Returns bet.creator_id opponent distinct bet.stake_amount a b db at_a at_b
          a_good b_good cents a_covers b_covers fee refund bet.id
          (refund_not_negative bet.stake_amount fee refund refund_is fee_le)
          (IsCents-safe_subtract _ _))
        (λ _ _. tt)

  pub settle_wallets-Returns :
      (opponent : Uuid)
      → bet.creator_id ≢ opponent
      → Covers bet db bet.creator_id
      → Covers bet db opponent
      → (outcome : SettlementOutcome) (w n : Decimal) → IsRate w
      → IsRate n
      → pos 0 <ℤ (compute_winner_amounts bet.stake_amount w).0
      → Returns (settle_wallets bet opponent outcome w n db)
  unfolding settle_wallets
  settle_wallets-Returns opponent distinct c o creator_wins w n wb nb pays =
      settle_winner-Returns bet.creator_id opponent distinct c o w wb pays
  settle_wallets-Returns opponent distinct c o opponent_wins w n wb nb pays =
      settle_winner-Returns opponent bet.creator_id (λ e. distinct (sym e)) o c w wb pays
  settle_wallets-Returns opponent distinct c o no_winner w n wb nb pays =
      settle_without_winner-Returns opponent distinct c o n nb
  settle_wallets-Returns opponent distinct c o voided w n wb nb pays =
      settle_without_winner-Returns opponent distinct c o n nb

collect_fee-Returns :
    (bet : Bet) (outcome : SettlementOutcome) (fee : Decimal) (account : PlatformAccount)
    (db : Database)
    → account_of bet.currency db ≡ some account
    → Returns (collect_fee bet outcome fee db)
unfolding collect_fee get_for_currency_for_update write_ledger_entry
collect_fee-Returns bet outcome fee account db found =
    rw (found, credit_fee-found bet.currency account db found fee) tt

module _ (bet : Bet) (pending : bet.status ≡ BetStatus.pending_settlement) where
  mark_settled-Returns :
      (outcome : SettlementOutcome) (s : Settled) (now : DateTime) (db : Database)
      → bet_of bet.id db ≡ some bet
      → Returns (mark_settled bet outcome s now db)
  unfolding mark_settled save_bet
  mark_settled-Returns outcome s now db found = rw (found, pending) tt

  pub record_settlement-Returns :
      (outcome : SettlementOutcome) (s : Settled) (now : DateTime) (account : PlatformAccount)
      (db : Database)
      → bet_of bet.id db ≡ some bet
      → account_of bet.currency db ≡ some account
      → AccountsGood db
      → IsCents s.platform_fee_amount
      → Returns (record_settlement bet outcome s now db)
  unfolding record_settlement write_bet_event
  record_settlement-Returns outcome s now account db found at_account accounts cents =
      Returns-bind (λ _ db'. FeeCollected s.platform_fee_amount db db')
        (collect_fee bet outcome s.platform_fee_amount) _ db
        (collect_fee-Returns bet outcome s.platform_fee_amount account db at_account)
        (collect_fee-FeeCollected bet outcome s.platform_fee_amount db accounts cents)
        λ _ db' (_, _, frame).
          Returns-then (mark_settled bet outcome s now) _ db'
            (mark_settled-Returns outcome s now db' (rw frame found)) (λ _ _. tt)
