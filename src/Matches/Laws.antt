-- ===== src/Matches/Laws.antt =====
-- The whole of a match settlement (app/services/match_settlement_service.py) against the invariant.
use buddy_bet_v.Prelude.{ℕ, ◌+◌, ◌≡◌, ◌∙◌, refl, arith, List, [], ◌∷◌, map}
use buddy_bet_v.Exec.{Result, ok, err, transaction, continue}
use buddy_bet_v.Exec.OnOk.{OnOk, OnOk-map, transaction-keeps}
use buddy_bet_v.Models.{Uuid, DateTime, Bet, Database}
use buddy_bet_v.Models.Enums.{FootballOutcome}
use buddy_bet_v.Matches.Settlement.{
  SettlementResult, tally, settle_each, count, nothing_yet, id_of, confirm_result,
  confirm_and_settle, settle_single_bet,
}
use buddy_bet_v.Matches.Transition.{Confirmed, confirm_result-Confirmed}
use buddy_bet_v.Settlement.{settle_bet}
use buddy_bet_v.Escrow.Settled.{Settles, settle_bet-Settles}
use buddy_bet_v.Escrow.{IsConsistent}
use buddy_bet_v.Escrow.BetMoves.{Conserved}

unchanged : (db : Database) → IsConsistent db → Conserved db db
unchanged db c = (c, refl)

module _ (bet_id : Uuid) (now : DateTime) (db : Database) (c : IsConsistent db) where
  -- From a consistent database, `settle_single_bet`, whether it returns or raises, leaves a consistent
  -- database with as much money as before.
  pub settle_single_bet-Conserved : Conserved db (settle_single_bet bet_id now db).1
  unfolding settle_single_bet
  settle_single_bet-Conserved =
      transaction-keeps (Conserved db) (settle_bet bet_id now) db (unchanged db c) (
        OnOk-map (Settles bet_id db) (λ _ db'. Conserved db db') (settle_bet bet_id now db)
          (λ _ _ settles. settles.0) (settle_bet-Settles bet_id now db c))

abbrev pub handled : SettlementResult → ℕ
handled r = r.bets_settled + r.bets_already_settled + r.bets_failed

tally-handled :
    {A : Type 0} (bet_id : Uuid) (out : Result A) (r : SettlementResult)
    → (handled (tally bet_id out r) ≡ handled r + 1)
      × ((tally bet_id out r).bets_found ≡ r.bets_found)
tally-handled bet_id (ok a) r = ground arith
tally-handled bet_id (err e) r = ground arith

Conserved-trans : (a b c : Database) → Conserved a b → Conserved b c → Conserved a c
Conserved-trans a b c (_, same) (consistent, same') = (consistent, same' ∙ same)

count-map : (bets : List Bet) → count (map id_of bets) ≡ count bets
count-map [] = refl
count-map (bet ∷ bets) = rw (count-map bets) refl

-- Every bet of the list is counted once.
abbrev Counted : List Uuid → SettlementResult → SettlementResult → Type 0
Counted bet_ids r r' = (handled r' ≡ handled r + count bet_ids) × (r'.bets_found ≡ r.bets_found)

module _ (clock : Uuid → DateTime) where
  settle_each-lem :
      (bet_ids : List Uuid) (r : SettlementResult) (db : Database)
      → IsConsistent db
      → (r' : SettlementResult) × (db' : Database) × (settle_each clock bet_ids r db ≡ (ok r', db'))
        × Counted bet_ids r r'
        × Conserved db db'
  unfolding settle_each settle_single_bet
  settle_each-lem [] r db c = (r, db, refl, (ground arith, refl), unchanged db c)
  settle_each-lem (bet_id ∷ bet_ids) r db c =
      let out = transaction (settle_bet bet_id (clock bet_id)) db in
      let step = settle_single_bet-Conserved bet_id (clock bet_id) db c in
      let (r', db', e, (counted, found), kept) =
        settle_each-lem bet_ids (tally bet_id out.0 r) out.1 step.0 in
      let (one_more, same) = tally-handled bet_id out.0 r in
      (
        r',
        db',
        e,
        (rw (counted, one_more) (omega arith), found ∙ same),
        Conserved-trans db out.1 db' step kept,
      )

module _ (match_id : Uuid) (outcome : FootballOutcome) (home_score away_score : ℕ)
    (confirmed_by : Uuid) (now : DateTime) (clock : Uuid → DateTime) (db : Database)
    (c : IsConsistent db) where
  -- From a consistent database, `confirm_and_settle` leaves a consistent database with as much money
  -- as before, whether it returns or raises and whichever bets fail; when it returns, every bet that
  -- it found was counted once, as settled, as settled before, or as failed.
  pub confirm_and_settle-keeps :
      let (out, db') =
        confirm_and_settle match_id outcome home_score away_score confirmed_by now clock db in
      Conserved db db' × OnOk (λ r _. handled r ≡ r.bets_found) (out, db')
  unfolding confirm_and_settle
  confirm_and_settle-keeps =
      go (transaction (confirm_result match_id outcome home_score away_score confirmed_by now) db) (
        transaction-keeps (Conserved db)
          (confirm_result match_id outcome home_score away_score confirmed_by now) db
          (unchanged db c)
          (OnOk-map (Confirmed match_id db) (λ _ db'. Conserved db db')
            (confirm_result match_id outcome home_score away_score confirmed_by now db)
            (λ _ _ confirmed. confirmed.0)
            (confirm_result-Confirmed match_id outcome home_score away_score confirmed_by now db
              c)))
    where
      go :
          (out : Result (List Bet) × Database)
          → Conserved db out.1
          → let (r, db') =
              continue out.0
                (λ bets. settle_each clock (map id_of bets) (nothing_yet (count bets)))
                out.1 in
            Conserved db db' × OnOk (λ r _. handled r ≡ r.bets_found) (r, db')
      go (err e, db1) kept = (kept, tt)
      go (ok bets, db1) kept =
          let (r', db', e, (counted, found), kept') =
            settle_each-lem clock (map id_of bets) (nothing_yet (count bets)) db1 kept.0 in
          rw e (
            Conserved-trans db db1 db' kept kept',
            rw (counted, found, count-map bets) (omega arith),
          )
