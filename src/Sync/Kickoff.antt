-- ===== src/Sync/Kickoff.antt =====
-- The acceptance of a bet (app/services/bet_service.py) after a synchronisation of the matches
-- (app/integrations/sync_service.py).
use buddy_bet_v.Prelude.{ℕ-eq, List}
use buddy_bet_v.Exec.{Exec}
use buddy_bet_v.Exec.Ignores.{Ignores}
use buddy_bet_v.Models.{Match, Wallet, Database}
use buddy_bet_v.Models.Enums.{UserStatus-eq, BetStatus-eq, FootballOutcome-eq}

abbrev with_matches : List Match → Database → Database
with_matches rows db = record db { matches = rows }

module _ (rows : List Match) where
  abbrev Blind : {A : Type 0} → Exec Database A → Type 0
  Blind = Ignores (with_matches rows)
