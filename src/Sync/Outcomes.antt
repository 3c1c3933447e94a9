-- ===== src/Sync/Outcomes.antt =====
-- The three synchronisations of app/integrations/sync_service.py as a whole.
use buddy_bet_v.Prelude.{
  ℕ, ◌+◌, ◌≡◌, refl, sym, ◌∙◌, arith, true, some, List, [], ◌∷◌, String, String-eq,
}
use buddy_bet_v.Exec.{Result, ok, err, Exec}
use buddy_bet_v.Models.{Uuid, DateTime, Match, Database}
use buddy_bet_v.Matches.Settlement.{is_some, count}
use buddy_bet_v.Matches.Transition.{noted-Conserved}
use buddy_bet_v.Escrow.{IsConsistent}
use buddy_bet_v.Escrow.BetMoves.{Conserved}
use buddy_bet_v.Sync.{
  ProviderMatchPayload, Action, created, updated, skipped, get_by_external_id, upsert_fixture,
}
use buddy_bet_v.Sync.Graph.{Moves, is_final, final-Moves}
use buddy_bet_v.Sync.Run.{
  SyncResult, BaseSportsProvider, process_payloads, sync_fetched, count_action, sync_upcoming,
  sync_results, sync_live, nothing_synced,
}
use buddy_bet_v.Sync.Calls.{Call, upcoming, results, live, fetched_by, written, synchronise}
use buddy_bet_v.Sync.Versions.{Follows, SameResult}
use buddy_bet_v.Sync.Laws.{IsFlush, synchronise-Reached}

abbrev pub handled : SyncResult → ℕ
handled r = r.created + r.updated + r.skipped + r.failed

module _ (flush : Exec Database (Unit {0})) (new_id : ℕ → Uuid) (clock : ℕ → DateTime) where
  counted : (out : Result Action) (r : SyncResult) → handled (count_action out r) ≡ handled r + 1
  counted (ok created) r = omega arith
  counted (ok updated) r = omega arith
  counted (ok skipped) r = omega arith
  counted (err e) r = omega arith

  count_keeps :
      (out : Result Action) (r : SyncResult)
      → (count_action out r).fixtures_fetched ≡ r.fixtures_fetched
  count_keeps (ok created) r = refl
  count_keeps (ok updated) r = refl
  count_keeps (ok skipped) r = refl
  count_keeps (err e) r = refl

  process-counted :
      (payloads : List ProviderMatchPayload) (r : SyncResult) (db : Database)
      → let r' = (process_payloads flush new_id clock payloads r db).0 in
        (handled r' ≡ handled r + count payloads) × (r'.fixtures_fetched ≡ r.fixtures_fetched)
  unfolding process_payloads
  process-counted [] r db = (omega arith, refl)
  process-counted (payload ∷ payloads) r db =
      let n = count payloads in
      let (out, db') = upsert_fixture flush payload (new_id n) (clock n) db in
      let (all, same) = process-counted payloads (count_action out r) db' in
      (omega (arith, all, counted out r), same ∙ count_keeps out r)

  fetched-counted :
      (fetched : Result (List ProviderMatchPayload)) (r : SyncResult) (db : Database)
      → handled r ≡ 0
      → r.fixtures_fetched ≡ 0
      → let r' = (sync_fetched flush new_id clock fetched r db).0 in
        handled r' ≡ r'.fixtures_fetched
  unfolding sync_fetched
  fetched-counted (err e) r db none_yet nothing = none_yet ∙ sym nothing
  fetched-counted (ok payloads) r db none_yet nothing =
      let (all, same) =
        process-counted payloads (record r { fixtures_fetched = count payloads }) db in
      omega (arith, all, same)

  module _ (provider : BaseSportsProvider) (now : DateTime) where
    abbrev none_yet : SyncResult
    none_yet = nothing_synced flush new_id clock provider now

    -- A synchronisation ends with a summary in which every fetched fixture is counted once: as created,
    -- updated, skipped or failed.
    pub synchronise-counted :
        (call : Call) (db : Database)
        → let r = (synchronise flush new_id clock provider now call db).0 in
          handled r ≡ r.fixtures_fetched
    unfolding synchronise sync_upcoming sync_results sync_live
    synchronise-counted (upcoming n leagues) db =
        fetched-counted (provider.fetch_upcoming_fixtures n leagues) none_yet db refl refl
    synchronise-counted (results n leagues) db =
        fetched-counted (provider.fetch_results n leagues) none_yet db refl refl
    synchronise-counted (live leagues) db =
        fetched-counted (provider.fetch_live_fixtures leagues) none_yet db refl refl

  module _ (provider : BaseSportsProvider) (now : DateTime) (call : Call) (db : Database) where
    module _ (lawful : IsFlush db flush) where
      abbrev synced : Database
      synced = (synchronise flush new_id clock provider now call db).1

      -- Whatever the provider sends and wherever the database refuses a row, a match that was in the
      -- table is there after the synchronisation with the same id and the same confirmation. Its
      -- status went, payload by payload in the order in which they were written, either nowhere or,
      -- with a payload of this match, by one allowed transition to the status of the payload.
      pub synchronise-Follows :
          (external_id : String) (row : Match)
          → get_by_external_id external_id db ≡ some row
          → (row' : Match) × (get_by_external_id external_id synced ≡ some row')
            × Follows row row'
            × Moves row.external_id (written (fetched_by provider call)) row.status row'.status
      synchronise-Follows external_id row found =
          let (row', found', (follows, _, path)) =
            (synchronise-Reached db flush lawful new_id clock provider now call).1 external_id row
              found in
          (row', found', follows, path)

      -- A completed, cancelled or abandoned match keeps its status, whatever the provider sends.
      pub synchronise-final :
          (external_id : String) (row : Match)
          → get_by_external_id external_id db ≡ some row
          → is_final row.status ≡ true
          → (row' : Match) × (get_by_external_id external_id synced ≡ some row')
            × (row'.status ≡ row.status)
      synchronise-final external_id row found final =
          let (row', found', follows, path) = synchronise-Follows external_id row found in
          (row', found', final-Moves final path)

      -- Once the result of a match is confirmed, no synchronisation changes the outcome, the scores or the
      -- confirmation.
      pub synchronise-SameResult :
          (external_id : String) (row : Match)
          → get_by_external_id external_id db ≡ some row
          → is_some row.result_confirmed_at ≡ true
          → (row' : Match) × (get_by_external_id external_id synced ≡ some row')
            × SameResult row row'
      synchronise-SameResult external_id row found confirmed =
          let (row', found', version) =
            (synchronise-Reached db flush lawful new_id clock provider now call).1 external_id row
              found in
          (row', found', version.1 confirmed)

      -- From a consistent database a synchronisation leaves a consistent database with as much money as
      -- before, in which only the table of matches may differ.
      pub synchronise-Conserved :
          IsConsistent db → Conserved db synced × (synced ≡ record db { matches = synced.matches })
      synchronise-Conserved c =
          let same = (synchronise-Reached db flush lawful new_id clock provider now call).0 in
          (rw same (noted-Conserved synced.matches db.bet_events db c), same)
