-- ===== src/Providers/Scores.antt =====
-- The scores that `_parse_fixture` of app/integrations/providers/api_football.py takes from a record of
-- the documented shape.
use buddy_bet_v.Prelude.{
  ℕ, ℕ-eq, ◌≡◌, refl, true, false, Bool-cases, inl, inr, Option, some, String, String-eq, ◌==◌,
  if◌then◌else◌,
}
use Prim.Native.String.{◌++◌ as append}
use buddy_bet_v.Exec.{ok}
use buddy_bet_v.Models.{DateTime}
use buddy_bet_v.Sync.{ProviderMatchPayload}
use buddy_bet_v.Sync.StatusMapper.{
  derive_outcome, is_completed_api_football_status, map_api_football_status,
}
use buddy_bet_v.Providers.{Json, number, text, object, closed, field, ProviderLibraries}
use buddy_bet_v.Providers.ApiFootball.{parse_fixture}

abbrev pair : Json → Json → Json
pair home away = object (field "home" home (field "away" away closed))

abbrev named : String → Json
named name = object (field "name" (text name) closed)

-- The record of the documentation string.
abbrev pub api_fixture : ℕ → String → String → String → String → String → ℕ → ℕ → ℕ → ℕ → Json
api_fixture id date short league home away full_home full_away goals_home goals_away = object (
    field "fixture"
      (object (
        field "id" (number id) (
          field "date" (text date)
            (field "status" (object (field "short" (text short) closed)) closed))))
      (field "league" (named league) (
        field "teams" (pair (named home) (named away)) (
          field "goals" (pair (number goals_home) (number goals_away)) (
            field "score"
              (object (field "fulltime" (pair (number full_home) (number full_away)) closed))
              closed)))))

-- `a or b`
abbrev pub or_else : ℕ → ℕ → ℕ
or_else full goals = if full == 0 then goals else full

module _ (lib : ProviderLibraries) {S : Type 0} (id : ℕ) (date short league home away : String)
    (full_home full_away goals_home goals_away : ℕ) (kickoff_at : DateTime) (s : S) where
  abbrev code : String
  code = lib.strip_upper short

  abbrev pub scored_payload : Option ℕ → Option ℕ → ProviderMatchPayload
  scored_payload home_score away_score = record {
    external_id = append "api_football:" (lib.format (number id));
    provider_name = "api_football";
    home_team = home;
    away_team = away;
    competition = league;
    kickoff_at = kickoff_at;
    raw_status = short;
    internal_status = map_api_football_status code;
    home_score = home_score;
    away_score = away_score;
    internal_outcome = derive_outcome home_score away_score;
  }

  -- From a record of the documented shape with an id, a date that parses and two team names, of a
  -- match that is over, the payload takes for each team the goals at full time, but the goals of
  -- the whole match if those at full time are zero.
  pub parse_fixture-scores :
      (id == 0) ≡ false
      → (date == "") ≡ false
      → (home == "") ≡ false
      → (away == "") ≡ false
      → lib.parse_iso date ≡ some kickoff_at
      → is_completed_api_football_status code ≡ true
      → parse_fixture lib
          (api_fixture id date short league home away full_home full_away goals_home goals_away)
          s
        ≡ (
          ok (
              some (
                scored_payload
                  (some (or_else full_home goals_home))
                  (some (or_else full_away goals_away)))),
          s,
        )
  unfolding parse_fixture
  parse_fixture-scores some_id dated home_named away_named parsed over =
      elim (Bool-cases (full_home == 0)) [
        | inl no_home ↦ elim (Bool-cases (full_away == 0)) [
          | inl no_away ↦
              rw (some_id, dated, parsed, home_named, away_named, no_home, no_away, over) refl
          | inr some_away ↦
              rw (some_id, dated, parsed, home_named, away_named, no_home, some_away, over) refl
        ]
        | inr some_home ↦ elim (Bool-cases (full_away == 0)) [
          | inl no_away ↦
              rw (some_id, dated, parsed, home_named, away_named, some_home, no_away, over) refl
          | inr some_away ↦
              rw (some_id, dated, parsed, home_named, away_named, some_home, some_away, over) refl
        ]
      ]
