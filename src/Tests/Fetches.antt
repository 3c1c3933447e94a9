-- ===== src/Tests/Fetches.antt =====
-- Examples of the clients of the providers, with records of the documented shape.
use buddy_bet_v.Sync.StatusMapper.{
  derive_outcome, is_completed_api_football_status, map_api_football_status,
}
use buddy_bet_v.Prelude.{
  ℕ, ℕ-eq, ◌^◌, ◌≡◌, ◌≢◌, refl, arith, inl, Bool, true, false, none, some, List, [], ◌∷◌, ap,
}
use buddy_bet_v.Exec.{ok, err, Exec, malformed}
use buddy_bet_v.Models.{Database}
use buddy_bet_v.Sync.Run.{sync_live}
use buddy_bet_v.Sync.Calls.{results, synchronise}
use buddy_bet_v.Sync.Laws.{IsFlush}
use buddy_bet_v.Sync.Checks.{AllChecked, IsHonest, synchronise-AllChecked}
use buddy_bet_v.Providers.{Json, null, number, object, field, closed, ProviderLibraries}
use buddy_bet_v.Providers.ApiFootball.{Outside, api_football, normalize_fixtures, parse_fixture}
use buddy_bet_v.Providers.FootballDataOrg.{football_data_org}
use buddy_bet_v.Providers.Shapes.{all_or_none, payloads_alone, normalize_fixtures-alone}
use buddy_bet_v.Providers.Honest.{api_football-IsHonest}
use buddy_bet_v.Providers.Competitions.{football_data_org-IsHonest}
use buddy_bet_v.Providers.Live.{sync_live-idle}
use buddy_bet_v.Providers.Scores.{api_fixture, scored_payload, parse_fixture-scores}
use buddy_bet_v.Tests.Data.{demo}

abbrev plain : ProviderLibraries
plain = record {
  parse_iso = λ _. some (10 ^ 12);
  strip_upper = λ code. code;
  with_offset = λ date. date;
  format = λ _. "1234";
}

-- Without goals at full time, and one of the home team in extra time.
abbrev extra_time : Json
extra_time = api_fixture 1234 "2024-08-17" "AET" "Cup" "Home" "Away" 0 0 1 0

abbrev broken : Json
broken = object (field "fixture" null closed)

abbrev outside : Outside
outside = record {
  today = 738000;
  year_of = λ _. 2024;
  month_of = λ _. 8;
  get_fixtures = λ _. extra_time ∷ [];
}

parse_fixture-scores_example : parse_fixture plain extra_time tt ≡ (
  ok (
      some (
        scored_payload plain 1234 "2024-08-17" "AET" "Cup" "Home" "Away" 0 0 1 0
          (10 ^ 12)
          tt
          (some 1)
          (some 0))),
  tt,
)
unfolding is_completed_api_football_status
parse_fixture-scores_example =
    parse_fixture-scores plain 1234 "2024-08-17" "AET" "Cup" "Home" "Away" 0 0 1 0 (10 ^ 12) tt refl
      refl refl refl refl refl

-- A record whose date is no text.
abbrev undated : Json
undated =
    object
      (field "fixture" (object (field "id" (number 5) (field "date" (number 3) closed))) closed)

normalize_fixtures-alone_example :
    normalize_fixtures plain (undated ∷ extra_time ∷ [])
    ≡ all_or_none plain (undated ∷ extra_time ∷ [])
normalize_fixtures-alone_example = normalize_fixtures-alone plain (undated ∷ extra_time ∷ [])

-- The good record is kept.
one_left :
    all_or_none plain (undated ∷ extra_time ∷ []) ≡ ok (payloads_alone plain (extra_time ∷ []))
unfolding parse_fixture is_completed_api_football_status map_api_football_status derive_outcome
one_left = refl

-- The broken record takes the good one with it.
nothing_left : normalize_fixtures plain (extra_time ∷ broken ∷ []) ≡ err malformed
unfolding normalize_fixtures parse_fixture is_completed_api_football_status map_api_football_status
    derive_outcome
nothing_left = refl

api_football-IsHonest_example : IsHonest (api_football plain outside (39 ∷ []))
api_football-IsHonest_example = api_football-IsHonest plain outside (39 ∷ [])

football_data_org-IsHonest_example : IsHonest (football_data_org plain 738000 (λ _. []) [])
football_data_org-IsHonest_example = football_data_org-IsHonest plain 738000 (λ _. []) []

abbrev takes_all : Exec Database (Unit {0})
takes_all db = (ok tt, db)

abbrev unconfirmed : Database
unconfirmed = record demo { matches = [] }

accepts-IsFlush : IsFlush unconfirmed takes_all
accepts-IsFlush db = inl refl

synchronise-AllChecked_example :
    AllChecked
      (synchronise takes_all
        (λ n. n)
        (λ n. n)
        (api_football plain outside (39 ∷ []))
        10
        (results 2 none)
        unconfirmed).1.matches
synchronise-AllChecked_example =
    synchronise-AllChecked unconfirmed takes_all accepts-IsFlush tt (λ n. n) (λ n. n)
      (api_football plain outside (39 ∷ [])) (api_football-IsHonest plain outside (39 ∷ [])) 10
      (results 2 none)

abbrev is_empty : List ℕ → Bool
is_empty [] = true
is_empty (_ ∷ _) = false

abbrev leagues : List ℕ
leagues = 39 ∷ []

one_league : leagues ≢ []
one_league h = absurd (ground (arith, ap is_empty h))

sync_live-idle_example :
    ((sync_live takes_all (λ n. n) (λ n. n) (api_football plain outside (39 ∷ [])) 10 none demo).1
      ≡ demo)
    × ((sync_live takes_all
          (λ n. n)
          (λ n. n)
          (api_football plain outside (39 ∷ []))
          10
          none
          demo).0.fixtures_fetched
        ≡ 0)
sync_live-idle_example =
    sync_live-idle takes_all (λ n. n) (λ n. n) plain outside (39 ∷ []) 10 none demo one_league
