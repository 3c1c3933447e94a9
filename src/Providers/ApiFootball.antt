-- ===== src/Providers/ApiFootball.antt =====
-- app/integrations/providers/api_football.py: the fixtures of API-Football.
use buddy_bet_v.Prelude.{
  ℕ, ℕ-eq, ◌+◌, ◌-◌, Bool, true, false, ◌||◌, Option, none, some, List, [], ◌∷◌, String, leb,
  if◌then◌else◌, ◌==◌,
}
use Prim.Native.String.{◌++◌ as append}
use buddy_bet_v.Exec.{Result, ok, Exec, pure, ◌>>=◌}
use buddy_bet_v.Models.{DateTime}
use buddy_bet_v.Sync.{ProviderMatchPayload}
use buddy_bet_v.Sync.StatusMapper.{
  map_api_football_status, is_completed_api_football_status, derive_outcome,
}
use buddy_bet_v.Sync.Run.{BaseSportsProvider}
use buddy_bet_v.Providers.{
  collect, ids_or, append_all, keep_all, Json, null, text, ProviderLibraries, empty_object,
  is_falsy, get_field, text_of, score_of, date_of, unless,
}

module _ {S : Type 0} where
  -- `first.get(key) or second.get(key)`
  abbrev pub get_or_get : String → Json → Json → Exec S Json
  get_or_get key first second = do
    value ← get_field key null first
    if is_falsy value then get_field key null second else pure value

  -- Both scores of a match that is over.
  abbrev pub final_scores : Bool → Json → Json → Exec S (Option ℕ × Option ℕ)
  final_scores false home away = pure (none, none)
  final_scores true home away = do
    home_score ← score_of home
    away_score ← score_of away
    pure (home_score, away_score)

  -- The name of a team, which lies one object deeper.
  abbrev pub team_name : String → Json → Exec S Json
  team_name side teams = do team ← get_field side empty_object teams; get_field "name" null team

module _ (lib : ProviderLibraries) {S : Type 0} where
  abbrev pub payload_of :
      Json
      → DateTime
      → String
      → Json
      → Json
      → Json
      → Json
      → Json
      → Exec S (Option ProviderMatchPayload)
  payload_of fixture_id kickoff_at raw_status competition home_team away_team home away = do
    let code = lib.strip_upper raw_status
    competition' ← text_of competition
    home_team' ← text_of home_team
    away_team' ← text_of away_team
    scores ← final_scores (is_completed_api_football_status code) home away
    pure (
        some record {
          external_id = append "api_football:" (lib.format fixture_id);
          provider_name = "api_football";
          home_team = home_team';
          away_team = away_team';
          competition = competition';
          kickoff_at = kickoff_at;
          raw_status = raw_status;
          internal_status = map_api_football_status code;
          home_score = scores.0;
          away_score = scores.1;
          internal_outcome = derive_outcome scores.0 scores.1;
        })

  -- From the status on.
  abbrev pub parse_rest : Json → Json → DateTime → Json → Exec S (Option ProviderMatchPayload)
  parse_rest raw fixture_id kickoff_at status = do
    short ← get_field "short" (text "NS") status
    raw_status ← text_of short
    league ← get_field "league" empty_object raw
    competition ← get_field "name" (text "Unknown League") league
    teams ← get_field "teams" empty_object raw
    home_team ← team_name "home" teams
    away_team ← team_name "away" teams
    unless (is_falsy home_team || is_falsy away_team) do
      score ← get_field "score" empty_object raw
      ft_score ← get_field "fulltime" empty_object score
      goals ← get_field "goals" empty_object raw
      home ← get_or_get "home" ft_score goals
      away ← get_or_get "away" ft_score goals
      payload_of fixture_id kickoff_at raw_status competition home_team away_team home away

  unfoldable pub parse_fixture : Json → Exec S (Option ProviderMatchPayload)
  parse_fixture raw = do
    fixture ← get_field "fixture" empty_object raw
    fixture_id ← get_field "id" null fixture
    unless (is_falsy fixture_id) do
      date_str ← get_field "date" null fixture
      unless (is_falsy date_str) do
        kickoff_at ← date_of lib date_str
        status ← get_field "status" empty_object fixture
        parse_rest raw fixture_id kickoff_at status

-- The `except` of the loop reads the id of the fixture for its message.
abbrev pub id_for_message : {S : Type 0} → Json → Exec S Json
id_for_message raw = do
  fixture ← get_field "fixture" empty_object raw
  get_field "id" (text "?") fixture

module _ (lib : ProviderLibraries) where
  -- What the parser and the handler of its exceptions answer.
  abbrev pub parsed : Json → Result (Option ProviderMatchPayload)
  parsed raw = (parse_fixture lib raw tt).0

  abbrev pub message_of : Json → Result Json
  message_of raw = (id_for_message raw tt).0

  unfoldable pub normalize_fixtures : List Json → Result (List ProviderMatchPayload)
  normalize_fixtures [] = ok []
  normalize_fixtures (raw ∷ raws) = collect (parsed raw) (message_of raw) (normalize_fixtures raws)

-- The parameters of a query, with days as numbers.
pub data Query : Type 0 where
  between : ℕ → ℕ → ℕ → ℕ → Query
  finished_between : ℕ → ℕ → ℕ → ℕ → Query
  live_all : Query

-- The calendar, and the network with the errors that `_get_fixtures` turns into an empty answer.
pub record Outside : Type 0 where
  pub today : ℕ
  pub year_of : ℕ → ℕ
  pub month_of : ℕ → ℕ
  pub get_fixtures : Query → List Json

unfoldable pub current_season : Outside → ℕ → ℕ
current_season outside today =
    if leb 8 (outside.month_of today) then outside.year_of today else outside.year_of today - 1

-- `_league_id_from_payload`, which always answers `None`
unfoldable pub league_id_from_payload : ProviderMatchPayload → Option ℕ
league_id_from_payload payload = none

-- `id in ids` of what may be `None`
abbrev pub in_ids : Option ℕ → List ℕ → Bool
in_ids none ids = false
in_ids (some id) [] = false
in_ids (some id) (x ∷ ids) = if x == id then true else in_ids (some id) ids

-- `... if ids else payloads`
abbrev pub is_of_league : List ℕ → ProviderMatchPayload → Bool
is_of_league [] payload = true
is_of_league (id ∷ ids) payload = in_ids (league_id_from_payload payload) (id ∷ ids)

module _ (lib : ProviderLibraries) (outside : Outside) (default_league_ids : List ℕ) where
  abbrev pub is_finished : ProviderMatchPayload → Bool
  is_finished payload = is_completed_api_football_status (lib.strip_upper payload.raw_status)

  -- The loops over the leagues.
  unfoldable pub fetch_upcoming_each : ℕ → List ℕ → Result (List ProviderMatchPayload)
  fetch_upcoming_each days_ahead [] = ok []
  fetch_upcoming_each days_ahead (league ∷ leagues) =
      let today = outside.today in
      let query = between league (current_season outside today) today (today + days_ahead) in
      append_all (normalize_fixtures lib (outside.get_fixtures query))
        (fetch_upcoming_each days_ahead leagues)

  unfoldable pub fetch_results_each : ℕ → List ℕ → Result (List ProviderMatchPayload)
  fetch_results_each days_back [] = ok []
  fetch_results_each days_back (league ∷ leagues) =
      let today = outside.today in
      let query =
        finished_between league (current_season outside today) (today - days_back) today in
      append_all (keep_all is_finished (normalize_fixtures lib (outside.get_fixtures query)))
        (fetch_results_each days_back leagues)

  unfoldable pub fetch_live : Option (List ℕ) → Result (List ProviderMatchPayload)
  fetch_live league_ids =
      let ids = ids_or default_league_ids league_ids in
      keep_all (is_of_league ids) (normalize_fixtures lib (outside.get_fixtures live_all))

  abbrev pub api_football : BaseSportsProvider
  api_football = record {
    provider_name = "api_football";
    fetch_upcoming_fixtures = λ days_ahead league_ids.
        fetch_upcoming_each days_ahead (ids_or default_league_ids league_ids);
    fetch_results =
        λ days_back league_ids. fetch_results_each days_back (ids_or default_league_ids league_ids);
    fetch_live_fixtures = fetch_live;
  }
