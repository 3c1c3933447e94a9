-- ===== src/Sync/Run.antt =====
-- A run of app/integrations/sync_service.py: the fixtures of one fetch are written one after the other
-- and counted.
use buddy_bet_v.Prelude.{ℕ, ◌+◌, List, [], ◌∷◌, Option, String}
use buddy_bet_v.Exec.{Result, ok, err, Exec}
use buddy_bet_v.Models.{Uuid, DateTime, Database}
use buddy_bet_v.Matches.Settlement.{count}
use buddy_bet_v.Sync.{ProviderMatchPayload, Action, upsert_fixture}

-- Of the messages of the errors their number is kept.
pub record SyncResult : Type 0 where
  pub provider : String
  pub run_at : DateTime
  pub fixtures_fetched : ℕ
  pub created : ℕ
  pub updated : ℕ
  pub skipped : ℕ
  pub failed : ℕ
  pub errors : ℕ

abbrev pub count_action : Result Action → SyncResult → SyncResult
count_action (ok Action.created) r = record r { created = r.created + 1 }
count_action (ok Action.updated) r = record r { updated = r.updated + 1 }
count_action (ok Action.skipped) r = record r { skipped = r.skipped + 1 }
count_action (err _) r = record r { failed = r.failed + 1; errors = r.errors + 1 }

-- A provider (app/integrations/providers/base.py). Its answers come from the network.
pub record BaseSportsProvider : Type 0 where
  pub provider_name : String
  pub fetch_upcoming_fixtures : ℕ → Option (List ℕ) → Result (List ProviderMatchPayload)
  pub fetch_results : ℕ → Option (List ℕ) → Result (List ProviderMatchPayload)
  pub fetch_live_fixtures : Option (List ℕ) → Result (List ProviderMatchPayload)

-- `new_id` and `clock` tell the id that a row would get and the moment of a turn by the number of
-- fixtures that are still to come.
module _ (flush : Exec Database (Unit {0})) (new_id : ℕ → Uuid) (clock : ℕ → DateTime) where
  -- A raise is caught and counted; what was written before it stays in the session.
  unfoldable pub process_payloads :
      List ProviderMatchPayload → SyncResult → Database → SyncResult × Database
  unfolding upsert_fixture
  process_payloads [] r db = (r, db)
  process_payloads (payload ∷ payloads) r db =
      let n = count payloads in
      let (out, db') = upsert_fixture flush payload (new_id n) (clock n) db in
      process_payloads payloads (count_action out r) db'

  unfoldable pub sync_fetched :
      Result (List ProviderMatchPayload) → SyncResult → Database → SyncResult × Database
  unfolding process_payloads
  sync_fetched (err _) r db = (record r { errors = r.errors + 1 }, db)
  sync_fetched (ok payloads) r db =
      process_payloads payloads (record r { fixtures_fetched = count payloads }) db

  module _ (provider : BaseSportsProvider) (now : DateTime) where
    abbrev pub nothing_synced : SyncResult
    nothing_synced = record {
      provider = provider.provider_name;
      run_at = now;
      fixtures_fetched = 0;
      created = 0;
      updated = 0;
      skipped = 0;
      failed = 0;
      errors = 0;
    }

    unfoldable pub sync_upcoming : ℕ → Option (List ℕ) → Database → SyncResult × Database
    unfolding sync_fetched
    sync_upcoming days_ahead league_ids =
        sync_fetched (provider.fetch_upcoming_fixtures days_ahead league_ids) nothing_synced

    unfoldable pub sync_results : ℕ → Option (List ℕ) → Database → SyncResult × Database
    unfolding sync_fetched
    sync_results days_back league_ids =
        sync_fetched (provider.fetch_results days_back league_ids) nothing_synced

    unfoldable pub sync_live : Option (List ℕ) → Database → SyncResult × Database
    unfolding sync_fetched
    sync_live league_ids = sync_fetched (provider.fetch_live_fixtures league_ids) nothing_synced
