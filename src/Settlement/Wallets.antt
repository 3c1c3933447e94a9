-- ===== src/Settlement/Wallets.antt =====
-- What the two settlement paths do to the sum of the wallets (app/services/settlement_service.py).
use buddy_bet_v.Prelude.{ℕ-eq, ◌≡◌, ◌≢◌, sym}
use buddy_bet_v.Prelude.Int.{pos, ◌+ℤ◌, ◌-ℤ◌, ◌≤ℤ◌, int_laws}
use buddy_bet_v.Exec.OnOk.{OnOk, OnOk-bind}
use buddy_bet_v.Money.{Decimal, safe_add}
use buddy_bet_v.Money.Cents.{IsCents, safe_add-cents, IsCents-safe_add, IsCents-safe_subtract}
use buddy_bet_v.Models.{Uuid, Bet, Database}
use buddy_bet_v.Models.Enums.{SettlementOutcome, creator_wins, opponent_wins, no_winner, voided}
use buddy_bet_v.Wallet.Posting.{AllGood}
use buddy_bet_v.Wallet.Pair.{FeeTaken, PairPosted-OnOk}
use buddy_bet_v.Wallet.TransferMoves.{
  winner_changes, winner_entries, winner_entries-Nets, payout, transfer_locked_funds-Posted,
}
use buddy_bet_v.Wallet.Transfer.{transfer_locked_funds}
use buddy_bet_v.Settlement.{Settled, settle_winner, settle_without_winner, settle_wallets}
use buddy_bet_v.Settlement.Amounts.{compute_winner_amounts, compute_no_winner_amounts}
use buddy_bet_v.Settlement.AmountLaws.{
  IsRate, compute_winner_amounts_lem, compute_no_winner_amounts_lem,
}
use buddy_bet_v.Settlement.NoWinner.{settle_no_winner}
use buddy_bet_v.Settlement.NoWinnerMoves.{
  refund_changes, no_winner_entries, no_winner_entries-Nets, settle_no_winner-Posted,
}

-- The fee of whole cents, not negative, has left the wallets.
abbrev pub Collected : Database → Settled → Database → Type 0
Collected db s db' =
    FeeTaken s.platform_fee_amount db db'
    × IsCents s.platform_fee_amount
    × (pos 0 ≤ℤ s.platform_fee_amount)

balanced_winner :
    (t stake fee payout : Decimal)
    → payout ≡ (stake +ℤ stake) -ℤ fee
    → t +ℤ (payout +ℤ (pos 0 -ℤ stake)) +ℤ (pos 0 +ℤ (pos 0 -ℤ stake)) +ℤ fee ≡ t
balanced_winner t stake fee payout e = rw e (omega int_laws)

balanced_no_winner :
    (t stake fee refund : Decimal)
    → refund ≡ stake -ℤ fee
    → t +ℤ (refund +ℤ (pos 0 -ℤ stake)) +ℤ (refund +ℤ (pos 0 -ℤ stake)) +ℤ (fee +ℤ fee) ≡ t
balanced_no_winner t stake fee refund e = rw e (omega int_laws)

module _ (bet : Bet) (db : Database) (good : AllGood db) (cents : IsCents bet.stake_amount)
    (nonneg : pos 0 ≤ℤ bet.stake_amount) where
  module _ (winner loser : Uuid) (distinct : winner ≢ loser) (rate : Decimal)
      (bounds : IsRate rate) where
    settle_winner-Collected : OnOk (Collected db) (settle_winner bet winner loser rate db)
    unfolding settle_winner
    settle_winner-Collected =
        let (payout_is, fee_nonneg, fee_le, fee_cents) =
          compute_winner_amounts_lem bet.stake_amount rate cents nonneg bounds in
        let fee = (compute_winner_amounts bet.stake_amount rate).1 in
        OnOk-bind (Collected db) (λ _ db'. FeeTaken fee db db')
          (transfer_locked_funds winner loser bet.stake_amount fee bet.id) _ db
          (PairPosted-OnOk winner loser distinct (winner_changes bet.stake_amount fee)
            (winner_entries bet.stake_amount (payout bet.stake_amount fee) bet.id) db fee
            (transfer_locked_funds winner loser bet.stake_amount fee bet.id db)
            (transfer_locked_funds-Posted winner loser distinct bet.stake_amount fee bet.id db good
              cents)
            (winner_entries-Nets bet.stake_amount fee bet.id) good
            (λ t. balanced_winner t bet.stake_amount fee (payout bet.stake_amount fee) payout_is))
          (λ _ db' taken. (taken, fee_cents, fee_nonneg))

  module _ (opponent : Uuid) (distinct : bet.creator_id ≢ opponent) (rate : Decimal)
      (bounds : IsRate rate) where
    settle_without_winner-Collected :
        OnOk (Collected db) (settle_without_winner bet opponent rate db)
    unfolding settle_without_winner
    settle_without_winner-Collected =
        let (refund_is, fee_nonneg, fee_le, fee_cents) =
          compute_no_winner_amounts_lem bet.stake_amount rate cents nonneg bounds in
        let (refund, fee) = compute_no_winner_amounts bet.stake_amount rate in
        let total_is = safe_add-cents fee fee fee_cents fee_cents in
        OnOk-bind (Collected db) (λ _ db'. FeeTaken (safe_add fee fee) db db')
          (settle_no_winner bet.creator_id opponent bet.stake_amount fee refund bet.id) _ db
          (PairPosted-OnOk bet.creator_id opponent distinct (refund_changes bet.stake_amount refund)
            (no_winner_entries fee refund bet.id) db (safe_add fee fee)
            (settle_no_winner bet.creator_id opponent bet.stake_amount fee refund bet.id db)
            (settle_no_winner-Posted bet.creator_id opponent distinct bet.stake_amount fee refund
              bet.id db good cents (IsCents-safe_subtract _ _))
            (no_winner_entries-Nets bet.stake_amount fee refund bet.id refund_is) good
            (λ t. rw total_is (balanced_no_winner t bet.stake_amount fee refund refund_is)))
          (λ _ db' taken. (taken, IsCents-safe_add _ _, rw total_is (omega int_laws)))

  -- Whatever the outcome of the match.
  pub settle_wallets-Collected :
      (opponent : Uuid) (outcome : SettlementOutcome) (winner_rate no_winner_rate : Decimal)
      → bet.creator_id ≢ opponent
      → IsRate winner_rate
      → IsRate no_winner_rate
      → OnOk (Collected db) (settle_wallets bet opponent outcome winner_rate no_winner_rate db)
  unfolding settle_wallets
  settle_wallets-Collected opponent creator_wins w n distinct wb nb =
      settle_winner-Collected bet.creator_id opponent distinct w wb
  settle_wallets-Collected opponent opponent_wins w n distinct wb nb =
      settle_winner-Collected opponent bet.creator_id (λ e. distinct (sym e)) w wb
  settle_wallets-Collected opponent no_winner w n distinct wb nb =
      settle_without_winner-Collected opponent distinct n nb
  settle_wallets-Collected opponent voided w n distinct wb nb =
      settle_without_winner-Collected opponent distinct n nb
