-- ===== src/Sync.antt =====
-- app/integrations/sync_service.py: the fixtures of a provider are written into the table of matches.
pub mod StatusMapper
pub mod Run
pub mod Calls
pub mod Edits
pub mod Graph
pub mod Versions
pub mod Laws
pub mod Outcomes
pub mod Again
pub mod Codes
pub mod Kickoff
pub mod Checks
use buddy_bet_v.Prelude.{
  ℕ, ℕ-eq, ◌+◌, ◌-◌, ◌*◌, ◌^◌, ◌&&◌, Bool, true, false, not, Option, none, some, List, [], ◌∷◌,
  String, String-eq, ltb, Eq, ◌==◌, ◌!=◌, if◌then◌else◌,
}
use buddy_bet_v.Exec.{Result, ok, err, Exec, gets, pure, modify, continue, ◌>>=◌, ◌>>◌}
use buddy_bet_v.Table.{find, update}
use buddy_bet_v.Models.{Uuid, DateTime, Match, Database}
use buddy_bet_v.Models.Enums.{FootballOutcome, FootballOutcome-eq, MatchStatus, MatchStatus-eq}
use buddy_bet_v.Matches.Settlement.{is_some}

pub record ProviderMatchPayload : Type 0 where
  pub external_id : String
  pub provider_name : String
  pub home_team : String
  pub away_team : String
  pub competition : String
  pub kickoff_at : DateTime
  pub raw_status : String
  pub internal_status : MatchStatus
  pub home_score : Option ℕ
  pub away_score : Option ℕ
  pub internal_outcome : Option FootballOutcome

-- `_ALLOWED_TRANSITIONS`: from a status to another
abbrev pub is_allowed : MatchStatus → MatchStatus → Bool
is_allowed MatchStatus.scheduled MatchStatus.live = true
is_allowed MatchStatus.scheduled MatchStatus.completed = true
is_allowed MatchStatus.scheduled MatchStatus.postponed = true
is_allowed MatchStatus.scheduled MatchStatus.cancelled = true
is_allowed MatchStatus.scheduled MatchStatus.abandoned = true
is_allowed MatchStatus.live MatchStatus.completed = true
is_allowed MatchStatus.live MatchStatus.postponed = true
is_allowed MatchStatus.live MatchStatus.cancelled = true
is_allowed MatchStatus.live MatchStatus.abandoned = true
is_allowed MatchStatus.postponed MatchStatus.scheduled = true
is_allowed _ _ = false

-- `==` of values that may be missing
module _ {A : Type 0} ⦃e : Eq A⦄ where
  abbrev pub same_option : Option A → Option A → Bool
  same_option none none = true
  same_option (some a) (some b) = a == b
  same_option _ _ = false

-- The row with the flag `changed`.
abbrev pub Edit : Type 0
Edit = Match × Bool

-- `if differs: row.field = value; changed = True`
abbrev pub edit : (Match → Bool) → (Match → Match) → Edit → Edit
edit differs write (row, changed) = if differs row then (write row, true) else (row, changed)

module _ (payload : ProviderMatchPayload) where
  unfoldable pub edit_home_team : Edit → Edit
  edit_home_team =
      edit (λ row. row.home_team != payload.home_team)
        (λ row. record row { home_team = payload.home_team })

  unfoldable pub edit_away_team : Edit → Edit
  edit_away_team =
      edit (λ row. row.away_team != payload.away_team)
        (λ row. record row { away_team = payload.away_team })

  unfoldable pub edit_competition : Edit → Edit
  edit_competition =
      edit (λ row. row.competition != payload.competition)
        (λ row. record row { competition = payload.competition })

  -- The difference of two moments is compared with 60 seconds.
  abbrev pub is_rescheduled : Match → Bool
  is_rescheduled row =
      ltb (60 * 10 ^ 6)
        ((row.kickoff_at - payload.kickoff_at) + (payload.kickoff_at - row.kickoff_at))

  unfoldable pub edit_kickoff : Edit → Edit
  edit_kickoff = edit is_rescheduled (λ row. record row { kickoff_at = payload.kickoff_at })

  abbrev pub may_change : Match → Bool
  may_change row =
      row.status != payload.internal_status && is_allowed row.status payload.internal_status

  unfoldable pub edit_status : Edit → Edit
  edit_status = edit may_change (λ row. record row { status = payload.internal_status })

  unfoldable pub edit_outcome : Edit → Edit
  edit_outcome =
      edit (λ row. not (same_option row.outcome payload.internal_outcome))
        (λ row. record row { outcome = payload.internal_outcome })

  unfoldable pub edit_home_score : Edit → Edit
  edit_home_score =
      edit (λ row. not (same_option row.result_home_score payload.home_score))
        (λ row. record row { result_home_score = payload.home_score })

  unfoldable pub edit_away_score : Edit → Edit
  edit_away_score =
      edit (λ row. not (same_option row.result_away_score payload.away_score))
        (λ row. record row { result_away_score = payload.away_score })

  unfoldable pub edit_result : Edit → Edit
  unfolding edit_outcome edit_home_score edit_away_score
  edit_result start =
      if is_some payload.internal_outcome && not (is_some start.0.result_confirmed_at)
      then edit_away_score (edit_home_score (edit_outcome start))
      else start

  unfoldable pub edit_fixture : Match → Edit
  unfolding edit_home_team edit_away_team edit_competition edit_kickoff edit_status edit_result
  edit_fixture row =
      edit_result (
        edit_status
          (edit_kickoff (edit_competition (edit_away_team (edit_home_team (row, false))))))

abbrev pub external_id_of : Match → String
external_id_of row = row.external_id

abbrev pub get_by_external_id : String → Database → Option Match
get_by_external_id external_id db = find external_id_of external_id db.matches

pub data Action : Type 0 where
  created updated skipped : Action

unfoldable pub new_match : ProviderMatchPayload → Uuid → DateTime → Match
new_match payload new_id now =
    let row : Match = record {
      id = new_id;
      external_id = payload.external_id;
      provider_name = some payload.provider_name;
      home_team = payload.home_team;
      away_team = payload.away_team;
      competition = payload.competition;
      kickoff_at = payload.kickoff_at;
      status = payload.internal_status;
      result_home_score = none;
      result_away_score = none;
      outcome = none;
      result_confirmed_at = none;
      last_synced_at = some now;
    } in
    if is_some payload.internal_outcome
    then record row {
      outcome = payload.internal_outcome;
      result_home_score = payload.home_score;
      result_away_score = payload.away_score;
    }
    else row

unfoldable pub synced_match : ProviderMatchPayload → DateTime → Match → Match
unfolding edit_fixture
synced_match payload now row = record (edit_fixture payload row).0 { last_synced_at = some now }

-- `flush` is the database's answer to the rows that were written: it takes them, or it raises.
module _ (flush : Exec Database (Unit {0})) where
  unfoldable pub create_fixture : ProviderMatchPayload → Uuid → DateTime → Exec Database Action
  unfolding new_match
  create_fixture payload new_id now = do
    modify (λ db. record db { matches = new_match payload new_id now ∷ db.matches })
    flush
    pure created

  unfoldable pub update_fixture : Match → ProviderMatchPayload → DateTime → Exec Database Action
  unfolding edit_fixture synced_match
  update_fixture existing payload now = do
    modify (λ db. record db {
      matches =
          update external_id_of existing.external_id (λ _. synced_match payload now existing)
            db.matches;
    })
    flush
    pure (if (edit_fixture payload existing).1 then updated else skipped)

  -- The two ways of `_upsert_fixture`.
  abbrev pub create_or_update :
      ProviderMatchPayload → Uuid → DateTime → Option Match → Exec Database Action
  create_or_update payload new_id now none = create_fixture payload new_id now
  create_or_update payload new_id now (some existing) = update_fixture existing payload now

  unfoldable pub upsert_fixture : ProviderMatchPayload → Uuid → DateTime → Exec Database Action
  unfolding create_fixture update_fixture
  upsert_fixture payload new_id now = do
    existing ← gets (get_by_external_id payload.external_id)
    create_or_update payload new_id now existing
