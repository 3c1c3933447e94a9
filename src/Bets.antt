-- ===== src/Bets.antt =====
-- app/repositories/bet_repository.py: the rows of the bets, and the events about them.
pub mod Service
use buddy_bet_v.Prelude.{ℕ-eq, Option, List, ◌∷◌, String}
use buddy_bet_v.Exec.{Exec, gets, modify, some_or_raise, not_found, ◌>>=◌}
use buddy_bet_v.Table.{find, update}
use buddy_bet_v.Models.{Uuid, Bet, BetEvent, Database}
use buddy_bet_v.Models.Enums.{BetEventType}

abbrev pub bet_id_of : Bet → Uuid
bet_id_of bet = bet.id

abbrev pub bet_of : Uuid → Database → Option Bet
bet_of bet_id db = find bet_id_of bet_id db.bets

-- `get_for_update`, and `get_by_id_or_404`, which does not lock the row
unfoldable pub get_bet_or_404 : Uuid → Exec Database Bet
get_bet_or_404 bet_id = do bet ← gets (bet_of bet_id); some_or_raise not_found bet

-- The flush of changes to a bet's row.
abbrev pub set_bet : Bet → Database → Database
set_bet bet db = record db { bets = update bet_id_of bet.id (λ _. bet) db.bets }

unfoldable pub save_bet : Bet → Exec Database (Unit {0})
save_bet bet = modify (set_bet bet)

-- `_write_bet_event`, without the payload
unfoldable pub write_bet_event :
    Uuid → BetEventType → Option Uuid → String → Exec Database (Unit {0})
write_bet_event bet_id event_type actor_id actor_label = modify (λ db. record db {
  bet_events =
      record {
        bet_id = bet_id;
        event_type = event_type;
        actor_id = actor_id;
        actor_label = actor_label;
      }
      ∷ db.bet_events;
})
