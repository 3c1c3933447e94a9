-- ===== src/Sync/Laws.antt =====
-- What a run of app/integrations/sync_service.py does to the table of matches, whatever the provider
-- sends and wherever the database refuses a row.
use buddy_bet_v.Prelude.{
  ℕ, ◌≡◌, ◌⊎◌, inl, inr, ◌∙◌, ap, subst, refl, sym, arith, true, none, some, List, [], ◌∷◌, String,
  String-eq, ◌==◌, Bool-cases, Option-cases,
}
use buddy_bet_v.Exec.{Error, Result, ok, err, Exec, pure, ◌>>◌}
use buddy_bet_v.Table.{update, find-key, find-set}
use buddy_bet_v.Models.{Uuid, DateTime, Match, Database}
use buddy_bet_v.Matches.Settlement.{is_some, count}
use buddy_bet_v.Sync.{
  ProviderMatchPayload, Action, external_id_of, get_by_external_id, synced_match, new_match,
  create_fixture, update_fixture, upsert_fixture,
}
use buddy_bet_v.Sync.Run.{
  process_payloads, sync_fetched, count_action, SyncResult, BaseSportsProvider, nothing_synced,
  sync_upcoming, sync_results, sync_live,
}
use buddy_bet_v.Sync.Calls.{
  Call, upcoming, results, live, fetched_by, latest_first, written, synchronise,
}
use buddy_bet_v.Sync.Graph.{Moves, idle, stay}
use buddy_bet_v.Sync.Versions.{
  Follows, Follows-refl, Follows-trans, SameResult, synced_match-Follows, synced_match-SameResult,
  synced_match-Moves,
}

-- A flush takes the rows as they were written, or it raises, and what the session wrote is rolled back.
abbrev pub IsFlush : Database → Exec Database (Unit {0}) → Type 0
IsFlush start flush =
    (db : Database) → (flush db ≡ (ok tt, db)) ⊎ ((e : Error) × (flush db ≡ (err e, start)))

-- A row and what a run has made of it that has written payloads, the latest first.
abbrev pub Version : List ProviderMatchPayload → Match → Match → Type 0
Version done row row' =
    Follows row row'
    × (is_some row.result_confirmed_at ≡ true → SameResult row row')
    × Moves row.external_id done row.status row'.status

Version-refl : (done : List ProviderMatchPayload) (row : Match) → Version done row row
Version-refl done row = (Follows-refl row, (λ _. (refl, refl, refl, refl)), idle done row.status)

Version-stay :
    (payload : ProviderMatchPayload) (done : List ProviderMatchPayload) (row x : Match)
    → Version done row x
    → Version (payload ∷ done) row x
Version-stay payload done row x (follows, same, path) = (follows, same, stay path)

SameResult-trans : (a b c : Match) → SameResult a b → SameResult b c → SameResult a c
SameResult-trans a b c (i, j, k, l) (m, n, o, p) = (m ∙ i, n ∙ j, o ∙ k, p ∙ l)

Version-synced :
    (payload : ProviderMatchPayload) (done : List ProviderMatchPayload) (now : DateTime)
    (row x : Match)
    → payload.external_id ≡ x.external_id
    → Version done row x
    → Version (payload ∷ done) row (synced_match payload now x)
Version-synced payload done now row x of_match (follows, same, path) = (
  Follows-trans row x _ follows (synced_match-Follows payload now x),
  λ confirmed.
      SameResult-trans row x (synced_match payload now x) (same confirmed)
        (synced_match-SameResult payload now x (rw (follows.same_confirmed_at) confirmed)),
  synced_match-Moves payload now x (of_match ∙ follows.same_external_id) path,
)

-- The database during a run that began with `start`.
abbrev pub Reached : Database → List ProviderMatchPayload → Database → Type 0
Reached start done db =
    (db ≡ record start { matches = db.matches })
    × ((external_id : String) (row : Match)
        → get_by_external_id external_id start ≡ some row
        → (row' : Match) × (get_by_external_id external_id db ≡ some row') × Version done row row')

pub new_match-external_id :
    (payload : ProviderMatchPayload) (new_id : Uuid) (now : DateTime)
    → (new_match payload new_id now).external_id ≡ payload.external_id
unfolding new_match
new_match-external_id payload new_id now = elim (Bool-cases (is_some payload.internal_outcome)) [
  | inl h ↦ rw h refl
  | inr h ↦ rw h refl
]

module _ (start db : Database) (payload : ProviderMatchPayload) (done : List ProviderMatchPayload)
    (reached : Reached start done db) where
  same_rest : (rows : List Match) → record db { matches = rows } ≡ record start { matches = rows }
  same_rest rows = ap {A = Database} (λ d. record d { matches = rows }) reached.0

  created-Reached :
      (new : Match)
      → get_by_external_id new.external_id db ≡ none
      → Reached start (payload ∷ done) (record db { matches = new ∷ db.matches })
  created-Reached new missing = (
    same_rest (new ∷ db.matches),
    λ external_id row found.
        let (row', found', version) = reached.1 external_id row found in
        elim (Bool-cases (new.external_id == external_id)) [
          | inl hit ↦
              absurd
                (ground (arith, String-eq.equal_iff new.external_id external_id, missing, found'))
          | inr miss ↦ (row', rw miss found', Version-stay payload done row row' version)
        ],
  )

  synced-Reached :
      (now : DateTime) (existing : Match)
      → payload.external_id ≡ existing.external_id
      → get_by_external_id existing.external_id db ≡ some existing
      → Reached start (payload ∷ done) (record db {
        matches =
            update external_id_of existing.external_id
              (λ _. synced_match payload now existing)
              db.matches;
      })
  synced-Reached now existing of_match at = (
    same_rest _,
    λ external_id row found.
        let (row', found', version) = reached.1 external_id row found in
        let new = synced_match payload now existing in
        let seen =
          find-set external_id_of external_id existing.external_id new existing db.matches at
            (synced_match-Follows payload now existing).same_external_id in
        elim (Bool-cases (external_id == existing.external_id)) [
          | inl hit ↦
              let same : row' ≡ existing =
                ground (arith, String-eq.equal_iff external_id existing.external_id, found', at) in
              (
                new,
                rw seen (rw hit refl),
                Version-synced payload done now row existing of_match
                    (subst (Version done row) same version),
              )
          | inr miss ↦ (row', rw seen (rw miss found'), Version-stay payload done row row' version)
        ],
  )

module _ (start : Database) (flush : Exec Database (Unit {0})) (lawful : IsFlush start flush) where
  begun : (done : List ProviderMatchPayload) → Reached start done start
  begun done = (refl, λ external_id row found. (row, found, Version-refl done row))

  flushed :
      (done : List ProviderMatchPayload) (action : Action) (db : Database)
      → Reached start done db
      → Reached start done ((flush >> pure action) db).1
  flushed done action db reached = elim (lawful db) [
    | inl taken ↦ rw taken reached
    | inr (e, refused) ↦ rw refused (begun done)
  ]

  upsert-Reached :
      (payload : ProviderMatchPayload) (done : List ProviderMatchPayload) (new_id : Uuid)
      (now : DateTime) (db : Database)
      → Reached start done db
      → Reached start (payload ∷ done) (upsert_fixture flush payload new_id now db).1
  unfolding upsert_fixture create_fixture update_fixture
  upsert-Reached payload done new_id now db reached =
      elim (Option-cases (get_by_external_id payload.external_id db)) [
        | inl missing ↦ rw missing (
            flushed (payload ∷ done) _ _ (
              created-Reached start db payload done reached (new_match payload new_id now)
                (rw (new_match-external_id payload new_id now) missing)))
        | inr (existing, found) ↦ rw found (
            flushed (payload ∷ done) _ _ (
              synced-Reached start db payload done reached now existing
                (sym (find-key external_id_of payload.external_id existing db.matches found))
                (subst (λ k. get_by_external_id k db ≡ some existing)
                  (sym (find-key external_id_of payload.external_id existing db.matches found))
                  found)))
      ]

  module _ (new_id : ℕ → Uuid) (clock : ℕ → DateTime) where
    process-Reached :
        (payloads done : List ProviderMatchPayload) (r : SyncResult) (db : Database)
        → Reached start done db
        → Reached start
            (latest_first done payloads)
            (process_payloads flush new_id clock payloads r db).1
    unfolding process_payloads
    process-Reached [] done r db reached = reached
    process-Reached (payload ∷ payloads) done r db reached =
        let n = count payloads in
        let (out, db') = upsert_fixture flush payload (new_id n) (clock n) db in
        process-Reached payloads (payload ∷ done) (count_action out r) db'
          (upsert-Reached payload done (new_id n) (clock n) db reached)

    fetched-Reached :
        (fetched : Result (List ProviderMatchPayload)) (r : SyncResult)
        → Reached start (written fetched) (sync_fetched flush new_id clock fetched r start).1
    unfolding sync_fetched
    fetched-Reached (err e) r = begun []
    fetched-Reached (ok payloads) r =
        process-Reached payloads [] (record r { fixtures_fetched = count payloads }) start
          (begun [])

    module _ (provider : BaseSportsProvider) (now : DateTime) where
      pub synchronise-Reached :
          (call : Call)
          → Reached start
              (written (fetched_by provider call))
              (synchronise flush new_id clock provider now call start).1
      unfolding synchronise sync_upcoming sync_results sync_live
      synchronise-Reached (upcoming n leagues) =
          fetched-Reached (provider.fetch_upcoming_fixtures n leagues)
            (nothing_synced flush new_id clock provider now)
      synchronise-Reached (results n leagues) =
          fetched-Reached (provider.fetch_results n leagues)
            (nothing_synced flush new_id clock provider now)
      synchronise-Reached (live leagues) =
          fetched-Reached (provider.fetch_live_fixtures leagues)
            (nothing_synced flush new_id clock provider now)
