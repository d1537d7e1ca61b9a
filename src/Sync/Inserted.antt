-- ===== src/Sync/Inserted.antt =====
-- The sync that `createRerun` of src/sync/DAL/syncRepository.ts inserts.
use osm_sync_tracker.Common.Transactions.{run-cases}
use osm_sync_tracker.Sync.Models.{CreateRerunRequest}
use osm_sync_tracker.Common.Db.{Transactor, rename_failure, IsolationLevel}
use osm_sync_tracker.Sync.Repository.{create_sync, find_one_sync}
use osm_sync_tracker.Prelude.{
  Bool, ◌≡◌, some, List, arith, any, false, find, ◌==◌, ◌++◌, ◌∷◌, [], if◌then◌else◌, none, true,
  Option-cases, inl, inr,
}
use osm_sync_tracker.Tables.{Date, Db, SyncRow, Uuid, same_sync}
use osm_sync_tracker.Common.Action.{ok}
use osm_sync_tracker.Sync.Rerun.{
  prepare_rerun, latest_run_id, create_entity_history, rerun_steps, prepare_incomplete_entities,
  statuses_for_rerun, prepare_incomplete_files, update_dangling_files_as_completed, rerun_body,
  create_rerun,
}

find_snoc :
    (s : SyncRow) (xs : List SyncRow)
    → any (same_sync s) xs ≡ false
    → find (λ x. x.id == s.id) (xs ++ s ∷ []) ≡ some s
find_snoc s [] h = ground arith
find_snoc s (x ∷ xs) h = ground (arith, find_snoc s xs)

pub find_one_sync-inserted :
    (s : SyncRow) (db : Db)
    → (create_sync s db).0 ≡ ok tt
    → find_one_sync s.id (create_sync s db).1 ≡ some s
unfolding create_sync find_one_sync
find_one_sync-inserted s db h = ground (arith, h, find_snoc s db.syncs)

-- The database as the rerun sync is inserted into it.
prepared : Date → Uuid → Bool → Db → Db
prepared now base not_synced db =
    let latest = latest_run_id base db in
    let d = (create_entity_history base latest (if latest == base then none else some base) db).1 in
    prepare_incomplete_entities base (statuses_for_rerun not_synced) (
      (if not_synced
          then prepare_incomplete_files base
          else update_dangling_files_as_completed now base)
        d)

prepare_rerun-inserts :
    (now : Date) (base : Uuid) (not_synced : Bool) (rerun : SyncRow) (db : Db) (c : Bool)
    → (prepare_rerun now base not_synced rerun db).0 ≡ ok c
    → find_one_sync rerun.id (prepare_rerun now base not_synced rerun db).1 ≡ some rerun
unfolding prepare_rerun prepared
prepare_rerun-inserts now base not_synced rerun db c h =
    ground (arith, h, find_one_sync-inserted rerun (prepared now base not_synced db))

rerun_steps-inserts :
    (now : Date) (base : Uuid) (not_synced : Bool) (rerun : SyncRow) (db : Db)
    → (rerun_steps now base not_synced rerun db).0 ≡ ok true
    → find_one_sync rerun.id (rerun_steps now base not_synced rerun db).1 ≡ some rerun
unfolding rerun_steps
rerun_steps-inserts now base not_synced rerun db h =
    grind (arith, h, prepare_rerun-inserts now base not_synced rerun)

rerun_body-inserts :
    (now : Date) (not_synced : Bool) (rerun : SyncRow) (db : Db)
    → (rerun_body now not_synced rerun db).0 ≡ ok true
    → find_one_sync rerun.id (rerun_body now not_synced rerun db).1 ≡ some rerun
unfolding rerun_body
rerun_body-inserts now not_synced rerun db h = elim (Option-cases rerun.base_sync_id) [
  | inl missing ↦ ground (arith, h, missing, find_one_sync-inserted rerun db)
  | inr (base, given) ↦ ground (arith, h, given, rerun_steps-inserts now base not_synced rerun db)
]

pub create_rerun-inserts :
    (t : Transactor) (now : Date) (r : CreateRerunRequest) (db : Db)
    → (create_rerun t now r db).0 ≡ ok true
    → find_one_sync r.sync.id (create_rerun t now r db).1 ≡ some r.sync
unfolding create_rerun rename_failure
create_rerun-inserts t now r db h =
    let body = rerun_body now r.should_rerun_not_synced r.sync in
    elim (run-cases t IsolationLevel.serializable body db) [
      | inl committed ↦
          ground (arith, h, committed, rerun_body-inserts now r.should_rerun_not_synced r.sync db)
      | inr (e, failed) ↦ ground (arith, h, failed)
    ]
