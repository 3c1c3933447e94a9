-- ===== src/Sync/StatusMapper.antt =====
-- app/integrations/status_mapper.py: the statuses of the providers in the statuses of the matches, and
-- the outcome that two scores give. A code is the text after `strip()` and `upper()`.
use buddy_bet_v.Prelude.{
  ℕ, Bool, true, false, Option, none, some, List, [], ◌∷◌, String, String-eq, ltb, ◌==◌,
  if◌then◌else◌,
}
use buddy_bet_v.Models.Enums.{FootballOutcome, MatchStatus}

abbrev pub StatusMap : Type 0
StatusMap = List (String × MatchStatus)

abbrev pub api_football_status_map : StatusMap
api_football_status_map =
    ("NS", MatchStatus.scheduled)
    ∷ ("TBD", MatchStatus.scheduled)
    ∷ ("1H", MatchStatus.live)
    ∷ ("HT", MatchStatus.live)
    ∷ ("2H", MatchStatus.live)
    ∷ ("ET", MatchStatus.live)
    ∷ ("BT", MatchStatus.live)
    ∷ ("P", MatchStatus.live)
    ∷ ("SUSP", MatchStatus.live)
    ∷ ("INT", MatchStatus.live)
    ∷ ("LIVE", MatchStatus.live)
    ∷ ("FT", MatchStatus.completed)
    ∷ ("AET", MatchStatus.completed)
    ∷ ("PEN", MatchStatus.completed)
    ∷ ("AWD", MatchStatus.completed)
    ∷ ("WO", MatchStatus.completed)
    ∷ ("PST", MatchStatus.postponed)
    ∷ ("CANC", MatchStatus.cancelled)
    ∷ ("ABD", MatchStatus.abandoned)
    ∷ []

abbrev pub api_football_completed_statuses : List String
api_football_completed_statuses = "FT" ∷ "AET" ∷ "PEN" ∷ "AWD" ∷ "WO" ∷ []

abbrev pub football_data_org_status_map : StatusMap
football_data_org_status_map =
    ("SCHEDULED", MatchStatus.scheduled)
    ∷ ("TIMED", MatchStatus.scheduled)
    ∷ ("IN_PLAY", MatchStatus.live)
    ∷ ("PAUSED", MatchStatus.live)
    ∷ ("FINISHED", MatchStatus.completed)
    ∷ ("POSTPONED", MatchStatus.postponed)
    ∷ ("SUSPENDED", MatchStatus.abandoned)
    ∷ ("CANCELLED", MatchStatus.cancelled)
    ∷ []

abbrev pub football_data_org_completed_statuses : List String
football_data_org_completed_statuses = "FINISHED" ∷ []

-- `.get(code, default)` of a dictionary whose keys differ
abbrev pub get_or : MatchStatus → String → StatusMap → MatchStatus
get_or default code [] = default
get_or default code (entry ∷ entries) =
    if entry.0 == code then entry.1 else get_or default code entries

-- `code in codes`
abbrev pub is_in : String → List String → Bool
is_in code [] = false
is_in code (x ∷ codes) = if x == code then true else is_in code codes

unfoldable pub map_api_football_status : String → MatchStatus
map_api_football_status code = get_or MatchStatus.scheduled code api_football_status_map

unfoldable pub is_completed_api_football_status : String → Bool
is_completed_api_football_status code = is_in code api_football_completed_statuses

unfoldable pub map_football_data_org_status : String → MatchStatus
map_football_data_org_status code = get_or MatchStatus.scheduled code football_data_org_status_map

unfoldable pub is_completed_football_data_org_status : String → Bool
is_completed_football_data_org_status code = is_in code football_data_org_completed_statuses

unfoldable pub derive_outcome : Option ℕ → Option ℕ → Option FootballOutcome
derive_outcome none _ = none
derive_outcome (some home_score) none = none
derive_outcome (some home_score) (some away_score) =
    if ltb away_score home_score
    then some FootballOutcome.home_win
    else if ltb home_score away_score
    then some FootballOutcome.away_win
    else some FootballOutcome.draw
