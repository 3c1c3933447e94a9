-- ===== src/Tests/Syncs.antt =====
-- Examples of the synchronisation of matches: a provider that reports a result, a postponement of a
-- finished match and a fixture that the database refuses.
use buddy_bet_v.Sync.Run.{process_payloads, sync_fetched, sync_results}
use buddy_bet_v.Prelude.{
  ℕ, ℕ-eq, ◌+◌, ◌^◌, ◌≡◌, refl, ◌⊎◌, inl, inr, Option, none, some, [], ◌∷◌, String, String-eq,
}
use buddy_bet_v.Exec.{Error, ok, err, Exec, database_error}
use buddy_bet_v.Exec.OnOk.{OnOk}
use buddy_bet_v.Models.{Uuid, DateTime, Match, Database}
use buddy_bet_v.Models.Enums.{FootballOutcome, MatchStatus}
use buddy_bet_v.Escrow.{IsConsistent}
use buddy_bet_v.Escrow.BetMoves.{Conserved}
use buddy_bet_v.Matches.Transition.{noted-Conserved}
use buddy_bet_v.Sync.{ProviderMatchPayload, get_by_external_id, upsert_fixture, skipped, updated}
use buddy_bet_v.Sync.Run.{BaseSportsProvider, SyncResult}
use buddy_bet_v.Sync.Calls.{written, fetched_by, Call, results, synchronise}
use buddy_bet_v.Sync.Versions.{Follows, SameResult}
use buddy_bet_v.Sync.Laws.{IsFlush}
use buddy_bet_v.Sync.Graph.{Moves}
use buddy_bet_v.Sync.Outcomes.{
  handled, synchronise-counted, synchronise-Follows, synchronise-SameResult, synchronise-Conserved,
}
use buddy_bet_v.Sync.Again.{upsert_fixture-again}
use buddy_bet_v.Matches.Settlement.{confirmed_match}
use buddy_bet_v.Tests.Data.{demo, match_with}
use buddy_bet_v.Tests.Data.Facts.{demo-IsConsistent}

abbrev to_come : Match
to_come = record (match_with 6 MatchStatus.scheduled) { external_id = "100" }

abbrev confirmed : Match
confirmed =
    confirmed_match FootballOutcome.draw 2 2 900
      (record (match_with 5 MatchStatus.live) { external_id = "200" })

abbrev fixtures : Database
fixtures = record demo { matches = to_come ∷ confirmed ∷ [] }

abbrev payload_of :
    String → MatchStatus → Option ℕ → Option ℕ → Option FootballOutcome → ProviderMatchPayload
payload_of external_id status home_score away_score outcome = record {
  external_id = external_id;
  provider_name = "api_football";
  home_team = "Home";
  away_team = "Away";
  competition = "Cup";
  kickoff_at = 10 ^ 12 + 10 ^ 9;
  raw_status = "";
  internal_status = status;
  home_score = home_score;
  away_score = away_score;
  internal_outcome = outcome;
}

abbrev finished : ProviderMatchPayload
finished = payload_of "100" MatchStatus.completed (some 3) (some 1) (some FootballOutcome.home_win)

abbrev corrected : ProviderMatchPayload
corrected = payload_of "200" MatchStatus.postponed (some 0) (some 1) (some FootballOutcome.away_win)

abbrev refused : ProviderMatchPayload
refused = payload_of "300" MatchStatus.scheduled none none none

abbrev provider : BaseSportsProvider
provider = record {
  provider_name = "api_football";
  fetch_upcoming_fixtures = λ _ _. err database_error;
  fetch_results = λ _ _. ok (finished ∷ corrected ∷ refused ∷ []);
  fetch_live_fixtures = λ _. ok [];
}

-- This database refuses a table that has the fixture "300".
abbrev knows_300 : Database → Option Match
knows_300 db = get_by_external_id "300" db

abbrev answer : Option Match → Exec Database (Unit {0})
answer none db = (ok tt, db)
answer (some _) db = (err database_error, fixtures)

abbrev flush : Exec Database (Unit {0})
flush db = answer (knows_300 db) db

flush-IsFlush : IsFlush fixtures flush
flush-IsFlush db =
    elim (knows_300 db)
      as (λ o. (answer o db ≡ (ok tt, db)) ⊎ ((e : Error) × (answer o db ≡ (err e, fixtures)))) [
        | none ↦ inl refl
        | some _ ↦ inr (database_error, refl)
      ]

abbrev ids : ℕ → Uuid
ids n = n + 1000

abbrev clock : ℕ → DateTime
clock n = n + 10 ^ 12

abbrev call : Call
call = results 2 none

abbrev run : SyncResult × Database
run = synchronise flush ids clock provider 10 call fixtures

-- The first two fixtures are counted as updated although the refusal of the third took them back.
run_counts : (run.0.updated ≡ 2) × (run.0.failed ≡ 1) × (run.1 ≡ fixtures)
unfolding synchronise sync_results sync_fetched process_payloads upsert_fixture
run_counts = (refl, refl, refl)

synchronise-counted_example : handled run.0 ≡ run.0.fixtures_fetched
synchronise-counted_example = synchronise-counted flush ids clock provider 10 call fixtures

synchronise-Follows_example :
    (row' : Match) × (get_by_external_id "100" run.1 ≡ some row')
    × Follows to_come row'
    × Moves "100" (written (fetched_by provider call)) MatchStatus.scheduled row'.status
synchronise-Follows_example =
    synchronise-Follows flush ids clock provider 10 call fixtures flush-IsFlush "100" to_come refl

-- A database that takes every row.
abbrev takes_all : Exec Database (Unit {0})
takes_all db = (ok tt, db)

takes_all-IsFlush : IsFlush fixtures takes_all
takes_all-IsFlush db = inl refl

abbrev taken : SyncResult × Database
taken = synchronise takes_all ids clock provider 10 call fixtures

synchronise-SameResult_example :
    (row' : Match) × (get_by_external_id "200" taken.1 ≡ some row') × SameResult confirmed row'
synchronise-SameResult_example =
    synchronise-SameResult takes_all ids clock provider 10 call fixtures takes_all-IsFlush "200"
      confirmed refl refl

fixtures-IsConsistent : IsConsistent fixtures
fixtures-IsConsistent = (noted-Conserved fixtures.matches [] demo demo-IsConsistent).0

synchronise-Conserved_example :
    Conserved fixtures run.1 × (run.1 ≡ record fixtures { matches = run.1.matches })
synchronise-Conserved_example =
    synchronise-Conserved flush ids clock provider 10 call fixtures flush-IsFlush
      fixtures-IsConsistent

abbrev once : Database
once = (upsert_fixture takes_all finished 1 10 fixtures).1

upsert_fixture-again_example :
    OnOk (λ again _. again ≡ skipped) (upsert_fixture takes_all finished 2 20 once)
unfolding upsert_fixture
upsert_fixture-again_example =
    upsert_fixture-again finished fixtures takes_all takes_all-IsFlush 1 2 10 20 fixtures once
      updated refl
