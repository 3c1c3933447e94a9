-- ===== src/Providers/FootballDataOrg.antt =====
-- app/integrations/providers/football_data_org.py: the matches of Football-Data.org.
use buddy_bet_v.Prelude.{
  ℕ, ℕ-eq, ◌==◌, if◌then◌else◌, ◌+◌, ◌-◌, Bool, true, false, ◌||◌, Option, none, some, List, [],
  ◌∷◌, String,
}
use Prim.Native.String.{◌++◌ as append}
use buddy_bet_v.Exec.{Result, ok, Exec, pure, raise, some_or_raise, malformed, ◌>>=◌}
use buddy_bet_v.Models.{DateTime}
use buddy_bet_v.Sync.{ProviderMatchPayload}
use buddy_bet_v.Sync.StatusMapper.{
  map_football_data_org_status, is_completed_football_data_org_status, derive_outcome,
}
use buddy_bet_v.Sync.Run.{BaseSportsProvider}
use buddy_bet_v.Providers.{
  collect, ids_or, append_all, keep_all, Json, null, text, ProviderLibraries, empty_object,
  is_falsy, get_field, text_of, score_of, unless,
}

module _ {S : Type 0} where
  -- The scores at the end of a match that is over.
  abbrev pub full_time : Bool → Json → Exec S (Option ℕ × Option ℕ)
  full_time false raw = pure (none, none)
  full_time true raw = do
    score ← get_field "score" empty_object raw
    ft ← get_field "fullTime" empty_object score
    home ← get_field "home" null ft
    away ← get_field "away" null ft
    home_score ← score_of home
    away_score ← score_of away
    pure (home_score, away_score)

  -- A name that lies one object deeper.
  abbrev pub name_in : String → Json → Json → Exec S Json
  name_in key default raw = do
    value ← get_field key empty_object raw
    get_field "name" default value

module _ (lib : ProviderLibraries) {S : Type 0} where
  abbrev pub utc_date_of : Json → Exec S DateTime
  utc_date_of (text s) = some_or_raise malformed (lib.parse_iso (lib.with_offset s))
  utc_date_of _ = raise malformed

  -- From the teams on.
  abbrev pub payload_with :
      Json → Json → DateTime → String → Json → Json → Json → Exec S (Option ProviderMatchPayload)
  payload_with raw match_id kickoff_at raw_status competition home_team away_team = do
    let code = lib.strip_upper raw_status
    competition' ← text_of competition
    home_team' ← text_of home_team
    away_team' ← text_of away_team
    scores ← full_time (is_completed_football_data_org_status code) raw
    pure (
        some record {
          external_id = append "football_data_org:" (lib.format match_id);
          provider_name = "football_data_org";
          home_team = home_team';
          away_team = away_team';
          competition = competition';
          kickoff_at = kickoff_at;
          raw_status = raw_status;
          internal_status = map_football_data_org_status code;
          home_score = scores.0;
          away_score = scores.1;
          internal_outcome = derive_outcome scores.0 scores.1;
        })

  -- From the competition on.
  abbrev pub parse_names : Json → Json → DateTime → String → Exec S (Option ProviderMatchPayload)
  parse_names raw match_id kickoff_at raw_status = do
    competition ← name_in "competition" (text "Unknown Competition") raw
    home_team ← name_in "homeTeam" null raw
    away_team ← name_in "awayTeam" null raw
    unless (is_falsy home_team || is_falsy away_team)
        (payload_with raw match_id kickoff_at raw_status competition home_team away_team)

  unfoldable pub parse_match : Json → Exec S (Option ProviderMatchPayload)
  parse_match raw = do
    match_id ← get_field "id" null raw
    unless (is_falsy match_id) do
      utc_date ← get_field "utcDate" null raw
      unless (is_falsy utc_date) do
        kickoff_at ← utc_date_of utc_date
        status ← get_field "status" (text "SCHEDULED") raw
        raw_status ← text_of status
        parse_names raw match_id kickoff_at raw_status

module _ (lib : ProviderLibraries) where
  unfoldable pub normalize_matches : List Json → Result (List ProviderMatchPayload)
  normalize_matches [] = ok []
  normalize_matches (raw ∷ raws) =
      collect (parse_match lib raw tt).0 (get_field "id" (text "?") raw tt).0
        (normalize_matches raws)

abbrev pub default_competition_ids : List ℕ
default_competition_ids = 2021 ∷ 2014 ∷ 2002 ∷ 2019 ∷ 2015 ∷ 2001 ∷ []

-- The parameters of a query for a competition, with days as numbers.
pub data MatchQuery : Type 0 where
  scheduled_between : ℕ → ℕ → ℕ → MatchQuery
  finished_between : ℕ → ℕ → ℕ → MatchQuery
  in_play : ℕ → MatchQuery

-- `set(ids)`: every id once; the order of a set is not fixed.
abbrev pub other_ids : ℕ → List ℕ → List ℕ
other_ids id [] = []
other_ids id (x ∷ ids) = if x == id then other_ids id ids else x ∷ other_ids id ids

abbrev pub distinct : List ℕ → List ℕ
distinct [] = []
distinct (id ∷ ids) = id ∷ other_ids id (distinct ids)

-- `get_matches` is the network with the errors that `_get_matches` turns into an empty answer.
module _ (lib : ProviderLibraries) (today : ℕ) (get_matches : MatchQuery → List Json)
    (configured_ids : List ℕ) where
  abbrev pub normalized : MatchQuery → Result (List ProviderMatchPayload)
  normalized query = normalize_matches lib (get_matches query)

  abbrev pub is_finished_match : ProviderMatchPayload → Bool
  is_finished_match payload =
      is_completed_football_data_org_status (lib.strip_upper payload.raw_status)

  unfoldable pub fetch_upcoming_each : ℕ → List ℕ → Result (List ProviderMatchPayload)
  fetch_upcoming_each days_ahead [] = ok []
  fetch_upcoming_each days_ahead (id ∷ ids) =
      append_all (normalized (scheduled_between id today (today + days_ahead)))
        (fetch_upcoming_each days_ahead ids)

  unfoldable pub fetch_results_each : ℕ → List ℕ → Result (List ProviderMatchPayload)
  fetch_results_each days_back [] = ok []
  fetch_results_each days_back (id ∷ ids) =
      append_all
        (keep_all is_finished_match (normalized (finished_between id (today - days_back) today)))
        (fetch_results_each days_back ids)

  unfoldable pub fetch_live_each : List ℕ → Result (List ProviderMatchPayload)
  fetch_live_each [] = ok []
  fetch_live_each (id ∷ ids) = append_all (normalized (in_play id)) (fetch_live_each ids)

  -- `settings... or _DEFAULT_COMPETITION_IDS`
  abbrev pub own_ids : List ℕ
  own_ids = ids_or default_competition_ids (some configured_ids)

  abbrev pub football_data_org : BaseSportsProvider
  football_data_org = record {
    provider_name = "football_data_org";
    fetch_upcoming_fixtures =
        λ days_ahead league_ids. fetch_upcoming_each days_ahead (ids_or own_ids league_ids);
    fetch_results =
        λ days_back league_ids. fetch_results_each days_back (ids_or own_ids league_ids);
    fetch_live_fixtures = λ league_ids. fetch_live_each (distinct (ids_or own_ids league_ids));
  }
