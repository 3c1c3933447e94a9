-- ===== src/Providers/Competitions.antt =====
-- The payloads of app/integrations/providers/football_data_org.py.
use buddy_bet_v.Prelude.{
  ℕ, ◌≡◌, refl, ◌||◌, Bool, true, false, Option, none, some, List, [], ◌∷◌, String,
}
use buddy_bet_v.Exec.{Result, ok, err, Exec}
use buddy_bet_v.Exec.OnOk.{OnOk, OnOk-after}
use buddy_bet_v.Models.{DateTime}
use buddy_bet_v.Sync.{ProviderMatchPayload}
use buddy_bet_v.Sync.StatusMapper.{derive_outcome, is_completed_football_data_org_status}
use buddy_bet_v.Sync.Checks.{Derived, IsHonest}
use buddy_bet_v.Providers.{
  Json, null, text, ProviderLibraries, is_falsy, get_field, text_of, unless, collect, ids_or,
}
use buddy_bet_v.Providers.FootballDataOrg.{
  MatchQuery, full_time, name_in, utc_date_of, payload_with, parse_names, parse_match,
  normalize_matches, fetch_upcoming_each, fetch_results_each, fetch_live_each, own_ids,
  football_data_org, distinct,
}
use buddy_bet_v.Providers.Honest.{append_all-Derived, keep_all-Derived}

abbrev HasOutcome : {S : Type 0} → Option ProviderMatchPayload → S → Type 0
HasOutcome none s = Unit {0}
HasOutcome (some payload) s =
    payload.internal_outcome ≡ derive_outcome payload.home_score payload.away_score

module _ {S : Type 0} where
  unless-HasOutcome :
      (b : Bool) (k : Exec S (Option ProviderMatchPayload)) (s : S)
      → OnOk HasOutcome (k s)
      → OnOk HasOutcome (unless b k s)
  unless-HasOutcome true k s h = tt
  unless-HasOutcome false k s h = h

module _ (lib : ProviderLibraries) {S : Type 0} where
  payload_with-HasOutcome :
      (raw match_id : Json) (kickoff_at : DateTime) (raw_status : String)
      (competition home_team away_team : Json) (s : S)
      → OnOk HasOutcome
          (payload_with lib raw match_id kickoff_at raw_status competition home_team away_team s)
  payload_with-HasOutcome raw match_id kickoff_at raw_status competition home_team away_team s =
      OnOk-after HasOutcome (text_of competition) _ s λ _ s1.
        OnOk-after HasOutcome (text_of home_team) _ s1 λ _ s2.
          OnOk-after HasOutcome (text_of away_team) _ s2 λ _ s3.
            let is_over = is_completed_football_data_org_status (lib.strip_upper raw_status) in
            OnOk-after HasOutcome (full_time is_over raw) _ s3 λ _ _. refl

  after_status :
      (raw match_id : Json) (kickoff_at : DateTime) (raw_status : String) (s : S)
      → OnOk HasOutcome (parse_names lib raw match_id kickoff_at raw_status s)
  after_status raw match_id kickoff_at raw_status s =
      OnOk-after HasOutcome (name_in "competition" (text "Unknown Competition") raw) _ s
        λ competition s1. OnOk-after HasOutcome (name_in "homeTeam" null raw) _ s1 λ home_team s2.
          OnOk-after HasOutcome (name_in "awayTeam" null raw) _ s2 λ away_team s3.
            unless-HasOutcome (is_falsy home_team || is_falsy away_team) _ s3 (
              payload_with-HasOutcome raw match_id kickoff_at raw_status competition home_team
                away_team s3)

  parse_match-HasOutcome : (raw : Json) (s : S) → OnOk HasOutcome (parse_match lib raw s)
  unfolding parse_match
  parse_match-HasOutcome raw s = OnOk-after HasOutcome (get_field "id" null raw) _ s λ match_id s1.
      unless-HasOutcome (is_falsy match_id) _ s1 (
        OnOk-after HasOutcome (get_field "utcDate" null raw) _ s1 λ utc_date s2.
          unless-HasOutcome (is_falsy utc_date) _ s2 (
            OnOk-after HasOutcome (utc_date_of lib utc_date) _ s2 λ kickoff_at s3.
              OnOk-after HasOutcome (get_field "status" (text "SCHEDULED") raw) _ s3 λ status s4.
                OnOk-after HasOutcome (text_of status) _ s4
                  λ raw_status s5. after_status raw match_id kickoff_at raw_status s5))

collect-Derived :
    (out : Result (Option ProviderMatchPayload) × Unit {0}) (message : Result Json)
    (rest : Result (List ProviderMatchPayload))
    → OnOk HasOutcome out
    → Derived rest
    → Derived (collect out.0 message rest)
collect-Derived (ok none, s) message rest h all = all
collect-Derived (ok (some payload), s) message (ok payloads) h all = (h, all)
collect-Derived (ok (some payload), s) message (err e) h all = tt
collect-Derived (err e, s) (ok _) rest h all = all
collect-Derived (err e, s) (err e') rest h all = tt

module _ (lib : ProviderLibraries) (today : ℕ) (get_matches : MatchQuery → List Json)
    (configured_ids : List ℕ) where
  normal-Derived : (raws : List Json) → Derived (normalize_matches lib raws)
  unfolding normalize_matches
  normal-Derived [] = tt
  normal-Derived (raw ∷ raws) =
      collect-Derived (parse_match lib raw tt) (get_field "id" (text "?") raw tt).0
        (normalize_matches lib raws) (parse_match-HasOutcome lib raw tt) (normal-Derived raws)

  upcoming-Derived :
      (days : ℕ) (ids : List ℕ)
      → Derived (fetch_upcoming_each lib today get_matches configured_ids days ids)
  unfolding fetch_upcoming_each
  upcoming-Derived days [] = tt
  upcoming-Derived days (id ∷ ids) =
      append_all-Derived _ (fetch_upcoming_each lib today get_matches configured_ids days ids)
        (normal-Derived _) (upcoming-Derived days ids)

  results-Derived :
      (days : ℕ) (ids : List ℕ)
      → Derived (fetch_results_each lib today get_matches configured_ids days ids)
  unfolding fetch_results_each
  results-Derived days [] = tt
  results-Derived days (id ∷ ids) =
      append_all-Derived _ (fetch_results_each lib today get_matches configured_ids days ids)
        (keep_all-Derived _ _ (normal-Derived _)) (results-Derived days ids)

  live-Derived : (ids : List ℕ) → Derived (fetch_live_each lib today get_matches configured_ids ids)
  unfolding fetch_live_each
  live-Derived [] = tt
  live-Derived (id ∷ ids) =
      append_all-Derived _ (fetch_live_each lib today get_matches configured_ids ids)
        (normal-Derived _) (live-Derived ids)

  abbrev ids_of : Option (List ℕ) → List ℕ
  ids_of leagues = ids_or (own_ids lib today get_matches configured_ids) leagues

  -- The client of Football-Data.org is honest: whatever the network answers, the outcome of every payload
  -- is that of its scores.
  pub football_data_org-IsHonest : IsHonest (football_data_org lib today get_matches configured_ids)
  football_data_org-IsHonest = record {
    upcoming_derived = λ days leagues. upcoming-Derived days (ids_of leagues);
    results_derived = λ days leagues. results-Derived days (ids_of leagues);
    live_derived = λ leagues. live-Derived (distinct (ids_of leagues));
  }
