-- ===== src/Sync/Codes.antt =====
-- The two tables of app/integrations/status_mapper.py against each other, and the outcome of a score.
use buddy_bet_v.Prelude.{
  ℕ, ◌<◌, ◌≡◌, ◌↔◌, refl, arith, Bool, true, false, some, List, [], ◌∷◌, String, String-eq, ◌==◌,
  if◌then◌else◌, ap,
}
use buddy_bet_v.Models.Enums.{FootballOutcome, MatchStatus, MatchStatus-eq}
use buddy_bet_v.Sync.StatusMapper.{
  StatusMap, get_or, is_in, map_api_football_status, is_completed_api_football_status,
  map_football_data_org_status, is_completed_football_data_org_status, derive_outcome,
  api_football_status_map, football_data_org_status_map,
}

-- The keys of the entries whose status is `completed`.
abbrev completed_keys : StatusMap → List String
completed_keys [] = []
completed_keys (entry ∷ entries) =
    if entry.1 == MatchStatus.completed
    then entry.0 ∷ completed_keys entries
    else completed_keys entries

-- No key stands before a completed entry with the same key.
abbrev keys_differ : StatusMap → Bool
keys_differ [] = true
keys_differ (entry ∷ entries) =
    if is_in entry.0 (completed_keys entries) then false else keys_differ entries

is_in-equal :
    (k code : String) (codes : List String) → (k == code) ≡ true → is_in k codes ≡ is_in code codes
is_in-equal k code codes h = ap (λ x. is_in x codes) ((String-eq.equal_iff k code).0 h)

completed_iff :
    (code : String) (entries : StatusMap)
    → keys_differ entries ≡ true
    → (get_or MatchStatus.scheduled code entries ≡ MatchStatus.completed)
      ↔ (is_in code (completed_keys entries) ≡ true)
completed_iff code [] h = ground arith
completed_iff code (entry ∷ entries) h = ground (
  arith,
  completed_iff code entries,
  MatchStatus-eq.equal_iff entry.1 MatchStatus.completed,
  is_in-equal entry.0 code (completed_keys entries),
)

module _ (code : String) where
  -- For every code of API-Football, the status is `completed` exactly when the code is one of those that
  -- say that a final score is there.
  pub map_api_football_status-completed :
      (map_api_football_status code ≡ MatchStatus.completed)
      ↔ (is_completed_api_football_status code ≡ true)
  unfolding map_api_football_status is_completed_api_football_status
  map_api_football_status-completed = completed_iff code api_football_status_map refl

  -- The same of Football-Data.org.
  pub map_football_data_org_status-completed :
      (map_football_data_org_status code ≡ MatchStatus.completed)
      ↔ (is_completed_football_data_org_status code ≡ true)
  unfolding map_football_data_org_status is_completed_football_data_org_status
  map_football_data_org_status-completed = completed_iff code football_data_org_status_map refl

module _ (home away : ℕ) where
  -- With both scores there is an outcome: a win of the home team exactly when it scored more, of the away
  -- team exactly when it did, and otherwise a draw.
  pub derive_outcome-exact :
      ((derive_outcome (some home) (some away) ≡ some FootballOutcome.home_win) ↔ (away < home))
      × ((derive_outcome (some home) (some away) ≡ some FootballOutcome.away_win) ↔ (home < away))
      × ((derive_outcome (some home) (some away) ≡ some FootballOutcome.draw) ↔ (home ≡ away))
  unfolding derive_outcome
  derive_outcome-exact = ground arith
