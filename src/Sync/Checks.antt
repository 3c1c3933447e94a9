-- ===== src/Sync/Checks.antt =====
-- The checks of the table of matches (schema.sql) and a run of app/integrations/sync_service.py.
use buddy_bet_v.Prelude.{
  ℕ, ℕ-eq, String-eq, ◌≡◌, inl, inr, refl, subst, sym, arith, ◌&&◌, ◌||◌, not, Bool, true, false,
  Bool-cases, Option, Option-cases, none, some, List, [], ◌∷◌, String, ltb, ◌==◌,
}
use buddy_bet_v.Exec.{Result, ok, err, Exec, pure, ◌>>◌}
use buddy_bet_v.Table.{find, update}
use buddy_bet_v.Models.{Uuid, DateTime, Match, Database}
use buddy_bet_v.Models.Enums.{FootballOutcome, FootballOutcome-eq}
use buddy_bet_v.Matches.Settlement.{is_some, count}
use buddy_bet_v.Sync.{
  ProviderMatchPayload, Action, external_id_of, get_by_external_id, new_match, synced_match,
  upsert_fixture, create_fixture, update_fixture,
}
use buddy_bet_v.Sync.StatusMapper.{derive_outcome}
use buddy_bet_v.Sync.Edits.{synced_match-merged, takes_result}
use buddy_bet_v.Sync.Run.{
  SyncResult, BaseSportsProvider, process_payloads, count_action, sync_fetched, nothing_synced,
  sync_upcoming, sync_results, sync_live,
}
use buddy_bet_v.Sync.Calls.{Call, upcoming, results, live, synchronise}
use buddy_bet_v.Sync.Laws.{IsFlush}

-- `chk_matches_scores_both_or_neither`
abbrev pub scores_both_or_neither : Option ℕ → Option ℕ → Bool
scores_both_or_neither none none = true
scores_both_or_neither (some _) (some _) = true
scores_both_or_neither _ _ = false

-- `chk_matches_outcome_score_consistency`, of an outcome and two scores
abbrev pub is_consistent_outcome : FootballOutcome → ℕ → ℕ → Bool
is_consistent_outcome outcome home away =
    (ltb away home && outcome == FootballOutcome.home_win)
    || (ltb home away && outcome == FootballOutcome.away_win)
    || (home == away && outcome == FootballOutcome.draw)

abbrev pub outcome_score_consistency : Option FootballOutcome → Option ℕ → Option ℕ → Bool
outcome_score_consistency (some outcome) (some home) (some away) =
    is_consistent_outcome outcome home away
outcome_score_consistency _ _ _ = true

-- With `chk_matches_outcome_requires_scores` and `chk_matches_confirmed_at_requires_outcome`
abbrev pub result_checks : Option FootballOutcome → Option ℕ → Option ℕ → Option DateTime → Bool
result_checks outcome home away confirmed_at =
    scores_both_or_neither home away
    && (not (is_some outcome) || is_some home)
    && (not (is_some confirmed_at) || is_some outcome)
    && outcome_score_consistency outcome home away

abbrev pub row_checks : Match → Bool
row_checks row =
    result_checks row.outcome row.result_home_score row.result_away_score row.result_confirmed_at

abbrev pub AllChecked : List Match → Type 0
AllChecked [] = Unit {0}
AllChecked (row ∷ rows) = (row_checks row ≡ true) × AllChecked rows

-- The outcome of every payload is that of its scores.
abbrev pub AllDerived : List ProviderMatchPayload → Type 0
AllDerived [] = Unit {0}
AllDerived (payload ∷ payloads) =
    (payload.internal_outcome ≡ derive_outcome payload.home_score payload.away_score)
    × AllDerived payloads

-- An answer of a provider, if it is a list.
abbrev pub Derived : Result (List ProviderMatchPayload) → Type 0
Derived (ok payloads) = AllDerived payloads
Derived (err e) = Unit {0}

-- What the synchronisation needs of a provider.
pub record IsHonest (provider : BaseSportsProvider) : Type 0 where
  pub upcoming_derived :
      (days : ℕ) (leagues : Option (List ℕ))
      → Derived (provider.fetch_upcoming_fixtures days leagues)
  pub results_derived :
      (days : ℕ) (leagues : Option (List ℕ)) → Derived (provider.fetch_results days leagues)
  pub live_derived : (leagues : Option (List ℕ)) → Derived (provider.fetch_live_fixtures leagues)

derived_checks :
    (home away : Option ℕ) (confirmed_at : Option DateTime)
    → is_some (derive_outcome home away) ≡ true
    → result_checks (derive_outcome home away) home away confirmed_at ≡ true
unfolding derive_outcome
derived_checks none away confirmed_at h = absurd (ground arith)
derived_checks (some home) none confirmed_at h = absurd (ground arith)
derived_checks (some home) (some away) confirmed_at h = ground arith

module _ (payload : ProviderMatchPayload)
    (derived : payload.internal_outcome
      ≡ derive_outcome payload.home_score payload.away_score) where
  payload_checks :
      (confirmed_at : Option DateTime)
      → is_some payload.internal_outcome ≡ true
      → result_checks payload.internal_outcome payload.home_score payload.away_score confirmed_at
        ≡ true
  payload_checks confirmed_at given =
      subst (λ o. result_checks o payload.home_score payload.away_score confirmed_at ≡ true)
        (sym derived)
        (derived_checks payload.home_score payload.away_score confirmed_at
          (subst (λ o. is_some o ≡ true) derived given))

  new_match-checks :
      (new_id : Uuid) (now : DateTime) → row_checks (new_match payload new_id now) ≡ true
  unfolding new_match
  new_match-checks new_id now = elim (Bool-cases (is_some payload.internal_outcome)) [
    | inl given ↦ rw given (payload_checks none given)
    | inr missing ↦ rw missing refl
  ]

  synced_match-checks :
      (now : DateTime) (row : Match)
      → row_checks row ≡ true
      → row_checks (synced_match payload now row) ≡ true
  synced_match-checks now row before =
      rw (synced_match-merged payload now row) (elim (Bool-cases (takes_result payload row)) [
        | inl taken ↦ rw taken (payload_checks row.result_confirmed_at (ground (arith, taken)))
        | inr left ↦ rw left before
      ])

update-AllChecked :
    (external_id : String) (row : Match) (rows : List Match)
    → row_checks row ≡ true
    → AllChecked rows
    → AllChecked (update external_id_of external_id (λ _. row) rows)
update-AllChecked external_id row [] new all = tt
update-AllChecked external_id row (x ∷ rows) new (first, rest) =
    elim (Bool-cases (x.external_id == external_id)) [
      | inl hit ↦ rw hit (new, rest)
      | inr miss ↦ rw miss (first, update-AllChecked external_id row rows new rest)
    ]

found-checks :
    (external_id : String) (row : Match) (rows : List Match)
    → AllChecked rows
    → find external_id_of external_id rows ≡ some row
    → row_checks row ≡ true
found-checks external_id row [] all h = absurd (ground arith)
found-checks external_id row (x ∷ rows) (first, rest) h =
    elim (Bool-cases (x.external_id == external_id)) [
      | inl hit ↦
          let same : x ≡ row = ground (arith, hit, h) in subst (λ y. row_checks y ≡ true) same first
      | inr miss ↦ found-checks external_id row rows rest (ground (arith, miss, h))
    ]

module _ (start : Database) (flush : Exec Database (Unit {0})) (lawful : IsFlush start flush)
    (begun : AllChecked start.matches) where
  flushed :
      (action : Action) (db : Database)
      → AllChecked db.matches
      → AllChecked ((flush >> pure action) db).1.matches
  flushed action db all = elim (lawful db) [
    | inl taken ↦ rw taken all
    | inr (e, refused) ↦ rw refused begun
  ]

  upsert-AllChecked :
      (payload : ProviderMatchPayload)
      → payload.internal_outcome ≡ derive_outcome payload.home_score payload.away_score
      → (new_id : Uuid) (now : DateTime) (db : Database) → AllChecked db.matches
      → AllChecked (upsert_fixture flush payload new_id now db).1.matches
  unfolding upsert_fixture create_fixture update_fixture
  upsert-AllChecked payload derived new_id now db all =
      elim (Option-cases (get_by_external_id payload.external_id db)) [
        | inl missing ↦ rw missing (flushed _ _ (new_match-checks payload derived new_id now, all))
        | inr (existing, found) ↦
            let before = found-checks payload.external_id existing db.matches all found in
            rw found (
              flushed _ _ (
                update-AllChecked existing.external_id (synced_match payload now existing)
                  db.matches (synced_match-checks payload derived now existing before) all))
      ]

  module _ (new_id : ℕ → Uuid) (clock : ℕ → DateTime) where
    process-AllChecked :
        (payloads : List ProviderMatchPayload) (r : SyncResult) (db : Database)
        → AllDerived payloads
        → AllChecked db.matches
        → AllChecked (process_payloads flush new_id clock payloads r db).1.matches
    unfolding process_payloads
    process-AllChecked [] r db derived all = all
    process-AllChecked (payload ∷ payloads) r db (first, rest) all =
        let n = count payloads in
        let (out, db') = upsert_fixture flush payload (new_id n) (clock n) db in
        process-AllChecked payloads (count_action out r) db' rest
          (upsert-AllChecked payload first (new_id n) (clock n) db all)

    pub fetched-AllChecked :
        (fetched : Result (List ProviderMatchPayload)) (r : SyncResult)
        → Derived fetched
        → AllChecked (sync_fetched flush new_id clock fetched r start).1.matches
    unfolding sync_fetched
    fetched-AllChecked (err e) r derived = begun
    fetched-AllChecked (ok payloads) r derived =
        process-AllChecked payloads (record r { fixtures_fetched = count payloads }) start derived
          begun

    module _ (provider : BaseSportsProvider) (honest : IsHonest provider) (now : DateTime) where
      abbrev none_yet : SyncResult
      none_yet = nothing_synced flush new_id clock provider now

      -- With an honest provider, whose outcomes are those of its scores, a synchronisation of a table of
      -- matches that passes the checks of schema.sql leaves a table that passes them: scores stand both or
      -- neither, an outcome has scores and agrees with them, and a confirmation has an outcome.
      pub synchronise-AllChecked :
          (call : Call)
          → AllChecked (synchronise flush new_id clock provider now call start).1.matches
      unfolding synchronise sync_upcoming sync_results sync_live
      synchronise-AllChecked (upcoming days leagues) =
          fetched-AllChecked (provider.fetch_upcoming_fixtures days leagues) none_yet
            (honest.upcoming_derived days leagues)
      synchronise-AllChecked (results days leagues) =
          fetched-AllChecked (provider.fetch_results days leagues) none_yet
            (honest.results_derived days leagues)
      synchronise-AllChecked (live leagues) =
          fetched-AllChecked (provider.fetch_live_fixtures leagues) none_yet
            (honest.live_derived leagues)
