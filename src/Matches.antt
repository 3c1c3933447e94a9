-- ===== src/Matches.antt =====
-- app/repositories/match_repository.py: the rows of the matches.
pub mod Settlement
pub mod Laws
pub mod Transition
use buddy_bet_v.Prelude.{ℕ-eq, Option}
use buddy_bet_v.Exec.{Exec, gets, some_or_raise, not_found, ◌>>=◌}
use buddy_bet_v.Table.{find}
use buddy_bet_v.Models.{Uuid, Match, Database}

abbrev pub match_id_of : Match → Uuid
match_id_of row = row.id

abbrev pub match_of : Uuid → Database → Option Match
match_of match_id db = find match_id_of match_id db.matches

-- `get_by_id_or_404`, and `get_for_update`, which locks the row too
unfoldable pub get_match_or_404 : Uuid → Exec Database Match
get_match_or_404 match_id = do row ← gets (match_of match_id); some_or_raise not_found row
