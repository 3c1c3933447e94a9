-- ===== src/Settlement/Once.antt =====
-- Settling a bet again (the idempotency guards of app/services/settlement_service.py), and the
-- checks that schema.sql puts on its row.
use buddy_bet_v.Prelude.{ℕ-eq, ◌≡◌, ◌≢◌, refl, some, none, Option, Bool, true, false, arith}
use buddy_bet_v.Prelude.Int.{pos, ltb_ℤ}
use buddy_bet_v.Exec.{ok, err, settlement_idempotency}
use buddy_bet_v.Exec.OnOk.{OnOk-elim}
use buddy_bet_v.Money.{Decimal}
use buddy_bet_v.Models.{Uuid, DateTime, Bet, Database}
use buddy_bet_v.Models.Enums.{
  BetStatus, BetStatus-eq, SettlementOutcome, creator_wins, opponent_wins, no_winner, voided,
}
use buddy_bet_v.Bets.{bet_of, get_bet_or_404}
use buddy_bet_v.Settlement.{settle_bet}
use buddy_bet_v.Settlement.Sound.{IsSound}
use buddy_bet_v.Settlement.Laws.{SettledFrom, settle_bet-SettledFrom}

module _ (bet_id : Uuid) (now : DateTime) (db : Database) where
  -- A bet that is not waiting for settlement raises the idempotency error and changes nothing.
  pub settle_bet-not_pending :
      (bet : Bet)
      → bet_of bet_id db ≡ some bet
      → bet.status ≢ BetStatus.pending_settlement
      → settle_bet bet_id now db ≡ (err settlement_idempotency, db)
  unfolding settle_bet get_bet_or_404
  settle_bet-not_pending bet found status =
      ground (arith, BetStatus-eq.equal_iff bet.status BetStatus.pending_settlement)

-- From a sound database, once `settle_bet` has returned, calling it again for the same bet, at
-- whatever time, raises the idempotency error and changes nothing.
pub settle_bet-once :
    (bet_id : Uuid) (now later : DateTime) (db : Database) (bet' : Bet) (db' : Database)
    → IsSound db
    → settle_bet bet_id now db ≡ (ok bet', db')
    → settle_bet bet_id later db' ≡ (err settlement_idempotency, db')
settle_bet-once bet_id now later db bet' db' sound returned =
    let (_, _, _, _, _, found, status, _) =
      OnOk-elim (SettledFrom bet_id db) (settle_bet bet_id now db) bet' db'
        (settle_bet-SettledFrom bet_id now db sound) returned in
    settle_bet-not_pending bet_id later db' bet' found (λ e. ground arith)

abbrev pub is_null : {A : Type 0} → Option A → Bool
is_null none = true
is_null (some _) = false

-- `a IS NOT NULL AND a > 0`
abbrev pub is_positive : Option Decimal → Bool
is_positive none = false
is_positive (some amount) = ltb_ℤ (pos 0) amount

-- The check `chk_bets_payout_presence`.
abbrev payout_presence_by : Option SettlementOutcome → Option Decimal → Bool
payout_presence_by (some creator_wins) payout = is_positive payout
payout_presence_by (some opponent_wins) payout = is_positive payout
payout_presence_by (some no_winner) payout = is_null payout
payout_presence_by (some voided) payout = is_null payout
payout_presence_by none payout = true

abbrev pub payout_presence : Bet → Bool
payout_presence bet = payout_presence_by bet.settlement_outcome bet.payout_amount

-- From a sound database, when `settle_bet` returns a bet that has no winner, the row breaks the check
-- `chk_bets_payout_presence` of the table, which wants no payout there.
pub settle_bet-payout_presence :
    (bet_id : Uuid) (now : DateTime) (db : Database) (bet' : Bet) (db' : Database)
    → IsSound db
    → settle_bet bet_id now db ≡ (ok bet', db')
    → bet'.settlement_outcome ≡ some no_winner
    → payout_presence bet' ≡ false
settle_bet-payout_presence bet_id now db bet' db' sound returned no_one =
    let (_, _, _, _, _, _, _, (_, _, _, _, _, _, _, _, _, (_, _, (_, paid)))) =
      OnOk-elim (SettledFrom bet_id db) (settle_bet bet_id now db) bet' db'
        (settle_bet-SettledFrom bet_id now db sound) returned in
    rw (no_one, paid) refl
