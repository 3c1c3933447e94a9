-- ===== src/Sync/Again.antt =====
-- The same fixture twice (app/integrations/sync_service.py, `_upsert_fixture`).
use buddy_bet_v.Prelude.{
  ◌≡◌, refl, sym, subst, arith, inl, inr, some, false, beq_self, Option-cases, String-eq,
}
use buddy_bet_v.Exec.{ok, Exec, pure, ◌>>◌}
use buddy_bet_v.Exec.OnOk.{OnOk, OnOk-elim}
use buddy_bet_v.Table.{update, find-key, find-set}
use buddy_bet_v.Models.{Uuid, DateTime, Match, Database}
use buddy_bet_v.Sync.{
  ProviderMatchPayload, Action, skipped, external_id_of, get_by_external_id, new_match,
  synced_match, edit_fixture, create_fixture, update_fixture, upsert_fixture,
}
use buddy_bet_v.Sync.Versions.{synced_match-Follows, edit_fixture-synced, edit_fixture-new_match}
use buddy_bet_v.Sync.Laws.{IsFlush, new_match-external_id}

module _ (payload : ProviderMatchPayload) where
  -- The row of the fixture is one in which the payload finds nothing to change.
  abbrev UpToDate : Database → Type 0
  UpToDate db =
      (row : Match) × (get_by_external_id payload.external_id db ≡ some row)
      × ((edit_fixture payload row).1 ≡ false)

  updated_row :
      (now : DateTime) (db : Database) (existing : Match)
      → get_by_external_id payload.external_id db ≡ some existing
      → UpToDate (record db {
        matches =
            update external_id_of existing.external_id
              (λ _. synced_match payload now existing)
              db.matches;
      })
  updated_row now db existing found =
      let new = synced_match payload now existing in
      let key = find-key external_id_of payload.external_id existing db.matches found in
      (
        new,
        rw
            (find-set external_id_of payload.external_id existing.external_id new existing
              db.matches (subst (λ k. get_by_external_id k db ≡ some existing) (sym key) found)
              (synced_match-Follows payload now existing).same_external_id)
            (ground (arith, String-eq.equal_iff payload.external_id existing.external_id, key)),
        edit_fixture-synced payload now existing,
      )

  module _ (start : Database) (flush : Exec Database (Unit {0}))
      (lawful : IsFlush start flush) where
    flushed :
        (P : Action → Database → Type 0) (action : Action) (db : Database)
        → P action db
        → OnOk P ((flush >> pure action) db)
    flushed P action db h = elim (lawful db) [
      | inl taken ↦ rw taken h
      | inr (e, refused) ↦ rw refused tt
    ]

    upsert-UpToDate :
        (new_id : Uuid) (now : DateTime) (db : Database)
        → OnOk (λ _ db'. UpToDate db') (upsert_fixture flush payload new_id now db)
    unfolding upsert_fixture create_fixture update_fixture
    upsert-UpToDate new_id now db =
        elim (Option-cases (get_by_external_id payload.external_id db)) [
          | inl missing ↦ rw missing (
              flushed (λ _ db'. UpToDate db') _ _
                (
                  new_match payload new_id now,
                  rw (new_match-external_id payload new_id now, beq_self payload.external_id) refl,
                  edit_fixture-new_match payload new_id now,
                ))
          | inr (existing, found) ↦
              rw found (flushed (λ _ db'. UpToDate db') _ _ (updated_row now db existing found))
        ]

    skipped-again :
        (new_id : Uuid) (now : DateTime) (db : Database)
        → UpToDate db
        → OnOk (λ action _. action ≡ skipped) (upsert_fixture flush payload new_id now db)
    unfolding upsert_fixture update_fixture
    skipped-again new_id now db (row, found, same) =
        rw (found, same) (flushed (λ action _. action ≡ skipped) _ _ refl)

    -- When a fixture was written, writing the same fixture again, at any later time, finds nothing to
    -- change: if the database takes it, the answer is `skipped`.
    pub upsert_fixture-again :
        (new_id new_id' : Uuid) (now now' : DateTime) (db db' : Database) (action : Action)
        → upsert_fixture flush payload new_id now db ≡ (ok action, db')
        → OnOk (λ again _. again ≡ skipped) (upsert_fixture flush payload new_id' now' db')
    upsert_fixture-again new_id new_id' now now' db db' action returned =
        skipped-again new_id' now' db'
          (OnOk-elim (λ _ s. UpToDate s) _ action db' (upsert-UpToDate new_id now db) returned)
