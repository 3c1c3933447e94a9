-- ===== src/Providers/Payloads.antt =====
-- The payloads that `_parse_fixture` of app/integrations/providers/api_football.py makes.
use buddy_bet_v.Prelude.{
  ℕ, ◌≡◌, ◌⊎◌, refl, inl, inr, ◌||◌, Bool, true, false, Option, none, some, List, [], ◌∷◌, String,
}
use buddy_bet_v.Exec.{Result, ok, err, Exec}
use buddy_bet_v.Exec.OnOk.{OnOk, OnOk-after, OnOk-bind}
use buddy_bet_v.Models.{DateTime}
use buddy_bet_v.Models.Enums.{MatchStatus}
use buddy_bet_v.Sync.{ProviderMatchPayload}
use buddy_bet_v.Sync.StatusMapper.{
  derive_outcome, is_completed_api_football_status, map_api_football_status,
}
use buddy_bet_v.Sync.Codes.{map_api_football_status-completed}
use buddy_bet_v.Providers.{
  collect, Json, null, text, ProviderLibraries, empty_object, is_falsy, get_field, text_of,
  score_of, date_of, unless,
}
use buddy_bet_v.Providers.ApiFootball.{
  get_or_get, final_scores, team_name, payload_of, parse_rest, parse_fixture, normalize_fixtures,
  message_of,
}

-- The outcome is that of the scores, and a match with a score is completed.
abbrev pub IsSensible : ProviderMatchPayload → Type 0
IsSensible payload =
    (payload.internal_outcome ≡ derive_outcome payload.home_score payload.away_score)
    × (((payload.home_score ≡ none) × (payload.away_score ≡ none))
        ⊎ (payload.internal_status ≡ MatchStatus.completed))

abbrev pub Sensible : {S : Type 0} → Option ProviderMatchPayload → S → Type 0
Sensible none s = Unit {0}
Sensible (some payload) s = IsSensible payload

module _ {S : Type 0} where
  unless-Sensible :
      (b : Bool) (k : Exec S (Option ProviderMatchPayload)) (s : S)
      → OnOk Sensible (k s)
      → OnOk Sensible (unless b k s)
  unless-Sensible true k s h = tt
  unless-Sensible false k s h = h

-- No scores, unless there is a final score.
abbrev Scored : Bool → Option ℕ × Option ℕ → Type 0
Scored is_completed scores = ((scores.0 ≡ none) × (scores.1 ≡ none)) ⊎ (is_completed ≡ true)

final_scores-Scored :
    {S : Type 0} (b : Bool) (home away : Json) (s : S)
    → OnOk (λ scores _. Scored b scores) (final_scores b home away s)
final_scores-Scored false home away s = inl (refl, refl)
final_scores-Scored true home away s =
    OnOk-after (λ scores _. Scored true scores) (score_of home) _ s
      λ h s1. OnOk-after (λ scores _. Scored true scores) (score_of away) _ s1 λ a s2. inr refl

completed_if :
    (code : String) (scores : Option ℕ × Option ℕ)
    → Scored (is_completed_api_football_status code) scores
    → ((scores.0 ≡ none) × (scores.1 ≡ none))
      ⊎ (map_api_football_status code ≡ MatchStatus.completed)
completed_if code scores (inl nothing) = inl nothing
completed_if code scores (inr over) = inr ((map_api_football_status-completed code).1 over)

module _ (lib : ProviderLibraries) {S : Type 0} where
  payload_of-Sensible :
      (fixture_id : Json) (kickoff_at : DateTime) (raw_status : String)
      (competition home_team away_team home away : Json) (s : S)
      → OnOk Sensible (
          payload_of lib fixture_id kickoff_at raw_status competition home_team away_team home away
            s)
  payload_of-Sensible fixture_id kickoff_at raw_status competition home_team away_team home away s =
      OnOk-after Sensible (text_of competition) _ s λ _ s1.
        OnOk-after Sensible (text_of home_team) _ s1 λ _ s2.
          OnOk-after Sensible (text_of away_team) _ s2 λ _ s3.
            let code = lib.strip_upper raw_status in
            OnOk-bind Sensible (λ scores _. Scored (is_completed_api_football_status code) scores)
              (final_scores (is_completed_api_football_status code) home away) _ s3
              (final_scores-Scored (is_completed_api_football_status code) home away s3)
              λ scores s4 scored. (refl, completed_if code scores scored)

  after_status :
      (raw fixture_id : Json) (kickoff_at : DateTime) (status : Json) (s : S)
      → OnOk Sensible (parse_rest lib raw fixture_id kickoff_at status s)
  after_status raw fixture_id kickoff_at status s =
      OnOk-after Sensible (get_field "short" (text "NS") status) _ s λ short s1.
        OnOk-after Sensible (text_of short) _ s1 λ raw_status s2.
          OnOk-after Sensible (get_field "league" empty_object raw) _ s2 λ league s3.
            OnOk-after Sensible (get_field "name" (text "Unknown League") league) _ s3
              λ competition s4.
                OnOk-after Sensible (get_field "teams" empty_object raw) _ s4 λ teams s5.
                  OnOk-after Sensible (team_name "home" teams) _ s5 λ home_team s6.
                    OnOk-after Sensible (team_name "away" teams) _ s6 λ away_team s7.
                      unless-Sensible (is_falsy home_team || is_falsy away_team) _ s7 (
                        OnOk-after Sensible (get_field "score" empty_object raw) _ s7 λ score s8.
                          OnOk-after Sensible (get_field "fulltime" empty_object score) _ s8
                            λ ft_score s9.
                              OnOk-after Sensible (get_field "goals" empty_object raw) _ s9
                                λ goals s10.
                                  OnOk-after Sensible (get_or_get "home" ft_score goals) _ s10
                                    λ home s11.
                                      OnOk-after Sensible (get_or_get "away" ft_score goals) _ s11
                                        λ away s12.
                                          payload_of-Sensible fixture_id kickoff_at raw_status
                                            competition home_team away_team home away s12)

  parse_fixture-Sensible : (raw : Json) (s : S) → OnOk Sensible (parse_fixture lib raw s)
  unfolding parse_fixture
  parse_fixture-Sensible raw s =
      OnOk-after Sensible (get_field "fixture" empty_object raw) _ s λ fixture s1.
        OnOk-after Sensible (get_field "id" null fixture) _ s1 λ fixture_id s2.
          unless-Sensible (is_falsy fixture_id) _ s2 (
            OnOk-after Sensible (get_field "date" null fixture) _ s2 λ date_str s3.
              unless-Sensible (is_falsy date_str) _ s3 (
                OnOk-after Sensible (date_of lib date_str) _ s3 λ kickoff_at s4.
                  OnOk-after Sensible (get_field "status" empty_object fixture) _ s4
                    λ status s5. after_status raw fixture_id kickoff_at status s5))

-- Every payload is sensible, if the answer is a list.
abbrev pub AllSensible : List ProviderMatchPayload → Type 0
AllSensible [] = Unit {0}
AllSensible (payload ∷ payloads) = IsSensible payload × AllSensible payloads

abbrev pub AreSensible : Result (List ProviderMatchPayload) → Type 0
AreSensible (ok payloads) = AllSensible payloads
AreSensible (err e) = Unit {0}

module _ (lib : ProviderLibraries) where
  collect-AreSensible :
      (out : Result (Option ProviderMatchPayload) × Unit {0}) (message : Result Json)
      (rest : Result (List ProviderMatchPayload))
      → OnOk Sensible out
      → AreSensible rest
      → AreSensible (collect out.0 message rest)
  collect-AreSensible (ok none, s) message rest h all = all
  collect-AreSensible (ok (some payload), s) message (ok payloads) h all = (h, all)
  collect-AreSensible (ok (some payload), s) message (err e) h all = tt
  collect-AreSensible (err e, s) (ok _) rest h all = all
  collect-AreSensible (err e, s) (err e') rest h all = tt

  -- Whatever API-Football answers, every payload that `_normalize_fixtures` passes on has the outcome of
  -- its scores, and it has no score unless its status is completed.
  pub normalize_fixtures-AreSensible :
      (raws : List Json) → AreSensible (normalize_fixtures lib raws)
  unfolding normalize_fixtures
  normalize_fixtures-AreSensible [] = tt
  normalize_fixtures-AreSensible (raw ∷ raws) =
      collect-AreSensible (parse_fixture lib raw tt) (message_of lib raw)
        (normalize_fixtures lib raws) (parse_fixture-Sensible lib raw tt)
        (normalize_fixtures-AreSensible raws)
