-- ===== src/Matches/Settlement.antt =====
-- app/services/match_settlement_service.py: an admin confirms the result of a match, and its bets are
-- settled, each in a transaction of its own.
use buddy_bet_v.Prelude.{
  ℕ, ◌+◌, ℕ-eq, Bool, true, false, ◌&&◌, Option, none, some, List, [], ◌∷◌, ◌++◌, map, ◌==◌,
  if◌then◌else◌,
}
use buddy_bet_v.Exec.{
  Result, ok, err, Exec, pure, modify, raise_if, transaction, validation, settlement_idempotency,
  ◌>>=◌, ◌>>◌,
}
use buddy_bet_v.Table.{update}
use buddy_bet_v.Models.{Uuid, DateTime, Match, Bet, Database}
use buddy_bet_v.Models.Enums.{FootballOutcome, MatchStatus, BetStatus, BetStatus-eq, BetEventType}
use buddy_bet_v.Bets.{write_bet_event}
use buddy_bet_v.Matches.{match_id_of, get_match_or_404}
use buddy_bet_v.Settlement.{settle_bet}

-- `select(Bet).where(match_id).where(status == MATCHED)`
abbrev pub is_matched_bet : Uuid → Bet → Bool
is_matched_bet match_id bet = bet.match_id == match_id && bet.status == BetStatus.matched

abbrev pub pending_bet : Bet → Bet
pending_bet bet = record bet { status = BetStatus.pending_settlement }

-- The rows after the loop over the matched bets, and these bets.
abbrev pub with_pending : Uuid → List Bet → List Bet
with_pending match_id [] = []
with_pending match_id (bet ∷ bets) =
    (if is_matched_bet match_id bet then pending_bet bet else bet) ∷ with_pending match_id bets

abbrev pub pending_bets : Uuid → List Bet → List Bet
pending_bets match_id [] = []
pending_bets match_id (bet ∷ bets) =
    if is_matched_bet match_id bet
    then pending_bet bet ∷ pending_bets match_id bets
    else pending_bets match_id bets

unfoldable pub transition_matched_to_pending : Uuid → Exec Database (List Bet)
transition_matched_to_pending match_id db =
    (ok (pending_bets match_id db.bets), record db { bets = with_pending match_id db.bets })

abbrev pub is_some : {A : Type 0} → Option A → Bool
is_some none = false
is_some (some _) = true

abbrev pub confirmed_match : FootballOutcome → ℕ → ℕ → DateTime → Match → Match
confirmed_match outcome home_score away_score now row = record row {
  outcome = some outcome;
  result_home_score = some home_score;
  result_away_score = some away_score;
  status = MatchStatus.completed;
  result_confirmed_at = some now;
}

abbrev pub set_match : Match → Database → Database
set_match row db = record db { matches = update match_id_of row.id (λ _. row) db.matches }

-- One audit event for each bet.
unfoldable pub write_pending_events : Uuid → List Bet → Exec Database (Unit {0})
unfolding write_bet_event
write_pending_events confirmed_by [] = pure tt
write_pending_events confirmed_by (bet ∷ bets) = do
  write_bet_event bet.id BetEventType.pending_settlement (some confirmed_by) "SETTLEMENT_ENGINE"
  write_pending_events confirmed_by bets

-- Transaction A.
unfoldable pub confirm_result :
    Uuid → FootballOutcome → ℕ → ℕ → Uuid → DateTime → Exec Database (List Bet)
unfolding transition_matched_to_pending
confirm_result match_id outcome home_score away_score confirmed_by now = do
  row ← get_match_or_404 match_id
  raise_if (is_some row.result_confirmed_at) validation
  modify (set_match (confirmed_match outcome home_score away_score now row))
  bets ← transition_matched_to_pending match_id
  write_pending_events confirmed_by bets
  pure bets

-- The counts of the loop. The reasons of the failures, which are texts, are left out.
pub record SettlementResult : Type 0 where
  pub bets_found : ℕ
  pub bets_settled : ℕ
  pub bets_already_settled : ℕ
  pub bets_failed : ℕ
  pub failed_bet_ids : List Uuid

-- One turn of the loop: what the `try` and its two handlers count.
abbrev pub tally : {A : Type 0} → Uuid → Result A → SettlementResult → SettlementResult
tally bet_id (ok _) r = record r { bets_settled = r.bets_settled + 1 }
tally bet_id (err settlement_idempotency) r = record r {
  bets_already_settled = r.bets_already_settled + 1;
}
tally bet_id (err _) r = record r {
  bets_failed = r.bets_failed + 1;
  failed_bet_ids = r.failed_bet_ids ++ (bet_id ∷ []);
}

-- Transactions B to N. `clock` tells the moment at which a bet is settled.
unfoldable pub settle_each :
    (Uuid → DateTime) → List Uuid → SettlementResult → Exec Database SettlementResult
unfolding transaction
settle_each clock [] r db = (ok r, db)
settle_each clock (bet_id ∷ bet_ids) r db =
    let (out, db') = transaction (settle_bet bet_id (clock bet_id)) db in
    settle_each clock bet_ids (tally bet_id out r) db'

abbrev pub count : {A : Type 0} → List A → ℕ
count [] = 0
count (_ ∷ rest) = count rest + 1

abbrev pub nothing_yet : ℕ → SettlementResult
nothing_yet found = record {
  bets_found = found;
  bets_settled = 0;
  bets_already_settled = 0;
  bets_failed = 0;
  failed_bet_ids = [];
}

abbrev pub id_of : Bet → Uuid
id_of bet = bet.id

unfoldable pub confirm_and_settle :
    Uuid
    → FootballOutcome
    → ℕ
    → ℕ
    → Uuid
    → DateTime
    → (Uuid → DateTime)
    → Exec Database SettlementResult
unfolding transaction settle_each
confirm_and_settle match_id outcome home_score away_score confirmed_by now clock = do
  bets ← transaction (confirm_result match_id outcome home_score away_score confirmed_by now)
  settle_each clock (map id_of bets) (nothing_yet (count bets))

unfoldable pub settle_single_bet : Uuid → DateTime → Exec Database Bet
unfolding transaction
settle_single_bet bet_id now = transaction (settle_bet bet_id now)
