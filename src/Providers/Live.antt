-- ===== src/Providers/Live.antt =====
-- The live fixtures of API-Football (app/integrations/providers/api_football.py), and their
-- synchronisation.
use buddy_bet_v.Prelude.{ℕ, ◌≡◌, ◌≢◌, refl, Option, List, [], ◌∷◌}
use buddy_bet_v.Exec.{Result, ok, err, Exec}
use buddy_bet_v.Models.{Uuid, DateTime, Database}
use buddy_bet_v.Sync.{ProviderMatchPayload}
use buddy_bet_v.Sync.Run.{SyncResult, sync_live, sync_fetched, process_payloads}
use buddy_bet_v.Providers.{ids_or, keep, keep_all, ProviderLibraries}
use buddy_bet_v.Providers.ApiFootball.{
  Outside, is_of_league, league_id_from_payload, fetch_live, api_football, normalize_fixtures,
  live_all,
}

keep-none :
    (id : ℕ) (ids : List ℕ) (payloads : List ProviderMatchPayload)
    → keep (is_of_league (id ∷ ids)) payloads ≡ []
unfolding league_id_from_payload
keep-none id ids [] = refl
keep-none id ids (payload ∷ payloads) = keep-none id ids payloads

module _ (flush : Exec Database (Unit {0})) (new_id : ℕ → Uuid) (clock : ℕ → DateTime)
    (lib : ProviderLibraries) (outside : Outside) (default_league_ids : List ℕ) (now : DateTime)
    (league_ids : Option (List ℕ)) (db : Database) where
  abbrev outcome : SyncResult × Database
  outcome =
      sync_live flush new_id clock (api_football lib outside default_league_ids) now league_ids db

  fetched_nothing :
      (ids : List ℕ) (fetched : Result (List ProviderMatchPayload)) (r : SyncResult)
      → ids ≢ []
      → r.fixtures_fetched ≡ 0
      → ((sync_fetched flush new_id clock (keep_all (is_of_league ids) fetched) r db).1 ≡ db)
        × ((sync_fetched flush new_id clock
              (keep_all (is_of_league ids) fetched)
              r
              db).0.fixtures_fetched
            ≡ 0)
  unfolding sync_fetched process_payloads
  fetched_nothing [] fetched r some_id none_yet = absurd (some_id refl)
  fetched_nothing (id ∷ ids) (ok payloads) r some_id none_yet =
      rw (keep-none id ids payloads) (refl, refl)
  fetched_nothing (id ∷ ids) (err e) r some_id none_yet = (refl, none_yet)

  -- When leagues are asked for, by the call or by the settings, `sync_live` with the client of API-Football
  -- fetches no fixture and changes nothing, whatever matches are being played: the filter knows the league
  -- of no payload.
  pub sync_live-idle :
      ids_or default_league_ids league_ids ≢ []
      → (outcome.1 ≡ db) × (outcome.0.fixtures_fetched ≡ 0)
  unfolding sync_live fetch_live
  sync_live-idle some_id =
      fetched_nothing (ids_or default_league_ids league_ids)
        (normalize_fixtures lib (outside.get_fixtures live_all)) _ some_id refl
