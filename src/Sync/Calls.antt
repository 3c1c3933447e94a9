-- ===== src/Sync/Calls.antt =====
-- The three entry points of app/integrations/sync_service.py as one.
use buddy_bet_v.Prelude.{ℕ, Option, List, [], ◌∷◌}
use buddy_bet_v.Exec.{Result, ok, err, Exec}
use buddy_bet_v.Sync.{ProviderMatchPayload}
use buddy_bet_v.Models.{Uuid, DateTime, Database}
use buddy_bet_v.Sync.Run.{SyncResult, BaseSportsProvider, sync_upcoming, sync_results, sync_live}

pub data Call : Type 0 where
  upcoming : ℕ → Option (List ℕ) → Call
  results : ℕ → Option (List ℕ) → Call
  live : Option (List ℕ) → Call

-- What the provider sends to a call.
abbrev pub fetched_by : BaseSportsProvider → Call → Result (List ProviderMatchPayload)
fetched_by provider (upcoming days_ahead league_ids) =
    provider.fetch_upcoming_fixtures days_ahead league_ids
fetched_by provider (results days_back league_ids) = provider.fetch_results days_back league_ids
fetched_by provider (live league_ids) = provider.fetch_live_fixtures league_ids

-- The payloads in the order in which they are written, the latest first, before others.
abbrev pub latest_first :
    List ProviderMatchPayload → List ProviderMatchPayload → List ProviderMatchPayload
latest_first done [] = done
latest_first done (payload ∷ payloads) = latest_first (payload ∷ done) payloads

abbrev pub written : Result (List ProviderMatchPayload) → List ProviderMatchPayload
written (ok payloads) = latest_first [] payloads
written (err _) = []

module _ (flush : Exec Database (Unit {0})) (new_id : ℕ → Uuid) (clock : ℕ → DateTime)
    (provider : BaseSportsProvider) (now : DateTime) where
  unfoldable pub synchronise : Call → Database → SyncResult × Database
  unfolding sync_upcoming sync_results sync_live
  synchronise (upcoming days_ahead league_ids) =
      sync_upcoming flush new_id clock provider now days_ahead league_ids
  synchronise (results days_back league_ids) =
      sync_results flush new_id clock provider now days_back league_ids
  synchronise (live league_ids) = sync_live flush new_id clock provider now league_ids
