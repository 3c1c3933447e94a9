-- ===== src/Providers/Honest.antt =====
-- The answers of the two clients (app/integrations/providers) as the synchronisation uses them.
use buddy_bet_v.Prelude.{ℕ, Bool, Bool-cases, inl, inr, Option, List, [], ◌∷◌, ◌++◌}
use buddy_bet_v.Exec.{Result, ok, err}
use buddy_bet_v.Sync.{ProviderMatchPayload}
use buddy_bet_v.Sync.Checks.{AllDerived, Derived, IsHonest}
use buddy_bet_v.Providers.{Json, ProviderLibraries, append_all, keep, keep_all, ids_or}
use buddy_bet_v.Providers.ApiFootball.{
  Outside, normalize_fixtures, fetch_upcoming_each, fetch_results_each, fetch_live, api_football,
}
use buddy_bet_v.Providers.Payloads.{AllSensible, AreSensible, normalize_fixtures-AreSensible}

AllSensible-AllDerived :
    (payloads : List ProviderMatchPayload) → AllSensible payloads → AllDerived payloads
AllSensible-AllDerived [] all = tt
AllSensible-AllDerived (payload ∷ payloads) (first, rest) =
    (first.0, AllSensible-AllDerived payloads rest)

pub AreSensible-Derived :
    (answer : Result (List ProviderMatchPayload)) → AreSensible answer → Derived answer
AreSensible-Derived (ok payloads) all = AllSensible-AllDerived payloads all
AreSensible-Derived (err e) all = tt

append-AllDerived :
    (first rest : List ProviderMatchPayload)
    → AllDerived first
    → AllDerived rest
    → AllDerived (first ++ rest)
append-AllDerived [] rest all all' = all'
append-AllDerived (payload ∷ first) rest (one, all) all' =
    (one, append-AllDerived first rest all all')

pub append_all-Derived :
    (first rest : Result (List ProviderMatchPayload))
    → Derived first
    → Derived rest
    → Derived (append_all first rest)
append_all-Derived (ok first) (ok rest) all all' = append-AllDerived first rest all all'
append_all-Derived (ok first) (err e) all all' = tt
append_all-Derived (err e) rest all all' = tt

keep-AllDerived :
    (test : ProviderMatchPayload → Bool) (payloads : List ProviderMatchPayload)
    → AllDerived payloads
    → AllDerived (keep test payloads)
keep-AllDerived test [] all = tt
keep-AllDerived test (payload ∷ payloads) (one, all) = elim (Bool-cases (test payload)) [
  | inl yes_kept ↦ rw yes_kept (one, keep-AllDerived test payloads all)
  | inr dropped ↦ rw dropped (keep-AllDerived test payloads all)
]

pub keep_all-Derived :
    (test : ProviderMatchPayload → Bool) (answer : Result (List ProviderMatchPayload))
    → Derived answer
    → Derived (keep_all test answer)
keep_all-Derived test (ok payloads) all = keep-AllDerived test payloads all
keep_all-Derived test (err e) all = tt

module _ (lib : ProviderLibraries) (outside : Outside) (default_league_ids : List ℕ) where
  normal-Derived : (raws : List Json) → Derived (normalize_fixtures lib raws)
  normal-Derived raws =
      AreSensible-Derived (normalize_fixtures lib raws) (normalize_fixtures-AreSensible lib raws)

  upcoming-Derived :
      (days : ℕ) (ids : List ℕ)
      → Derived (fetch_upcoming_each lib outside default_league_ids days ids)
  unfolding fetch_upcoming_each
  upcoming-Derived days [] = tt
  upcoming-Derived days (id ∷ ids) =
      append_all-Derived _ (fetch_upcoming_each lib outside default_league_ids days ids)
        (normal-Derived _) (upcoming-Derived days ids)

  results-Derived :
      (days : ℕ) (ids : List ℕ)
      → Derived (fetch_results_each lib outside default_league_ids days ids)
  unfolding fetch_results_each
  results-Derived days [] = tt
  results-Derived days (id ∷ ids) =
      append_all-Derived _ (fetch_results_each lib outside default_league_ids days ids)
        (keep_all-Derived _ _ (normal-Derived _)) (results-Derived days ids)

  live-Derived :
      (leagues : Option (List ℕ)) → Derived (fetch_live lib outside default_league_ids leagues)
  unfolding fetch_live
  live-Derived leagues = keep_all-Derived _ _ (normal-Derived _)

  -- The client of API-Football is honest: whatever the network answers, the outcome of every payload is
  -- that of its scores.
  pub api_football-IsHonest : IsHonest (api_football lib outside default_league_ids)
  api_football-IsHonest = record {
    upcoming_derived = λ days leagues. upcoming-Derived days (ids_or default_league_ids leagues);
    results_derived = λ days leagues. results-Derived days (ids_or default_league_ids leagues);
    live_derived = live-Derived;
  }
