-- ===== src/Sync/Runs.antt =====
-- When a rerun is granted, and what sync it creates: `rerunSyncIfNeeded` of
-- src/sync/models/syncManager.ts over `createRerun` of src/sync/DAL/syncRepository.ts.
use osm_sync_tracker.Sync.Inserted.{find_one_sync-inserted, create_rerun-inserts}
use osm_sync_tracker.Sync.Numbers.{next_number, next_number-pos, found_id, next_number-highest}
use osm_sync_tracker.Common.Errors.{Error, sync_error, SyncError}
use mathlib.Core.Path.{ap}
use osm_sync_tracker.Common.Enums.{Status, status_eq}
use osm_sync_tracker.Sync.Models.{CreateRerunRequest, SyncWithReruns}
use osm_sync_tracker.Common.Db.{Transactor, rename_failure, IsolationLevel, is_transaction_failure}
use osm_sync_tracker.Sync.Manager.{rerun_found_sync, rerun_of, rerun_request, rerun_sync_if_needed}
use osm_sync_tracker.Sync.Repository.{
  create_sync, find_one_sync, last_rerun, is_rerun_of, find_one_sync_with_last_rerun,
}
use osm_sync_tracker.Prelude.{
  Bool, ◌≡◌, some, List, arith, any, false, ◌∷◌, [], if◌then◌else◌, none, true, Option-cases, ◌+◌,
  ◌&&◌, inl, Option, inr, all, leb, sym, refl, take, ◌∙◌, ◌<◌, ==→eq,
}
use osm_sync_tracker.Tables.{Date, Db, SyncRow, Uuid}
use osm_sync_tracker.Common.Action.{ok, err}
use osm_sync_tracker.Sync.Rerun.{rerun_body, create_rerun, left_behind}

-- The next run of a sync, as it is created.
pub record IsNextRun (sync_id : Uuid) (start : Date) (db : Db) (rerun : SyncRow) : Type 0 where
  pub base : rerun.base_sync_id ≡ some sync_id
  pub progresses : rerun.status ≡ Status.in_progress
  pub starts : rerun.start_date ≡ start
  pub has_no_end : rerun.end_date ≡ none
  pub runs : 0 < rerun.run_number
  pub highest :
      any (λ z. is_rerun_of sync_id z && leb rerun.run_number z.run_number) db.syncs ≡ false

-- A grant: the base sync is there, is no rerun itself and has failed; the id of the rerun is new.
pub record IsGranted (db : Db) (sync_id rerun_id : Uuid) : Type 0 where
  pub base : SyncRow
  pub found : find_one_sync sync_id db ≡ some base
  pub is_failed : base.status ≡ Status.failed
  pub is_no_rerun : base.run_number ≡ 0
  pub is_new : find_one_sync rerun_id db ≡ none
  pub latest_failed :
      all (λ r. status_eq r.status Status.failed) (take 1 (last_rerun sync_id db)) ≡ true

rerun_found_sync-granted :
    (t : Transactor) (now : Date) (rerun_id : Uuid) (start : Date) (b : Option Bool)
    (base : SyncRow) (reruns : List SyncRow) (db : Db) (c : Bool)
    → (rerun_found_sync t now rerun_id start b (record { sync = base; reruns = reruns }) db).0
      ≡ ok c
    → (base.run_number ≡ 0)
      × (base.status ≡ Status.failed)
      × (all (λ r. status_eq r.status Status.failed) (take 1 reruns) ≡ true)
unfolding rerun_found_sync
rerun_found_sync-granted t now rerun_id start b base [] db c h = ground (arith, h)
rerun_found_sync-granted t now rerun_id start b base (r ∷ rs) db c h = ground (arith, h)

rerun_found_sync-inserts :
    (t : Transactor) (now : Date) (rerun_id : Uuid) (start : Date) (b : Option Bool)
    (base : SyncRow) (reruns : List SyncRow) (db : Db)
    → (rerun_found_sync t now rerun_id start b (record { sync = base; reruns = reruns }) db).0
      ≡ ok true
    → find_one_sync rerun_id
        (rerun_found_sync t now rerun_id start b (record { sync = base; reruns = reruns }) db).1
      ≡ some (rerun_of base rerun_id (next_number reruns) start)
unfolding rerun_found_sync
rerun_found_sync-inserts t now rerun_id start b base [] db h =
    ground (arith, h, create_rerun-inserts t now (rerun_request base rerun_id start b 1) db)
rerun_found_sync-inserts t now rerun_id start b base (r ∷ rs) db h = ground (
  arith,
  h,
  create_rerun-inserts t now (rerun_request base rerun_id start b (r.run_number + 1)) db,
)

module _ (t : Transactor) (now : Date) (sync_id rerun_id : Uuid) (start : Date)
    (b : Option Bool) where
  no_base :
      (db : Db) (c : Bool)
      → find_one_sync sync_id db ≡ none
      → (rerun_sync_if_needed t now sync_id rerun_id start b db).0 ≡ ok c
      → ⊥
  unfolding rerun_sync_if_needed find_one_sync_with_last_rerun
  no_base db c missing h = ground (arith, missing, h)

  with_base : SyncRow → Db → SyncWithReruns
  with_base base db = record { sync = base; reruns = last_rerun sync_id db }

  new_id :
      (db : Db) (c : Bool)
      → (rerun_sync_if_needed t now sync_id rerun_id start b db).0 ≡ ok c
      → find_one_sync rerun_id db ≡ none
  unfolding rerun_sync_if_needed
  new_id db c h = ground (arith, h)

  -- With the base sync found and the id new, the base sync decides.
  on_found :
      (db : Db) (base : SyncRow)
      → find_one_sync sync_id db ≡ some base
      → find_one_sync rerun_id db ≡ none
      → rerun_sync_if_needed t now sync_id rerun_id start b db
        ≡ rerun_found_sync t now rerun_id start b (with_base base db) db
  unfolding rerun_sync_if_needed find_one_sync_with_last_rerun with_base
  on_found db base found new = ground (arith, found, new)

  -- A rerun that is answered without an error, created or not, is granted: the base sync is there, is
  -- no rerun itself and has failed; the last of its reruns, if there is one, has failed; and the id of
  -- the rerun is new.
  pub rerun_sync_if_needed-IsGranted :
      (db : Db) (created : Bool)
      → (rerun_sync_if_needed t now sync_id rerun_id start b db).0 ≡ ok created
      → IsGranted db sync_id rerun_id
  unfolding with_base
  rerun_sync_if_needed-IsGranted db created h = elim (Option-cases (find_one_sync sync_id db)) [
    | inl missing ↦ absurd (no_base db created missing h)
    | inr (base, found) ↦
        let new = new_id db created h in
        let same = on_found db base found new in
        let granted =
          rerun_found_sync-granted t now rerun_id start b base (last_rerun sync_id db) db created
            (ap (λ x. x.0) (sym same) ∙ h) in
        record {
          base = base;
          found = found;
          is_failed = granted.1;
          is_no_rerun = granted.0;
          is_new = new;
          latest_failed = granted.2;
        }
  ]

  -- Where a rerun is answered as created, the database then has a sync of its id: a rerun of the base
  -- sync in progress from the given date, that has not ended, whose run number is above 0 and above
  -- that of every rerun the base sync had before.
  pub rerun_sync_if_needed_created :
      (db : Db)
      → (rerun_sync_if_needed t now sync_id rerun_id start b db).0 ≡ ok true
      → (rerun : SyncRow) × (find_one_sync rerun_id
            (rerun_sync_if_needed t now sync_id rerun_id start b db).1
          ≡ some rerun)
        × IsNextRun sync_id start db rerun
  unfolding with_base
  rerun_sync_if_needed_created db h = elim (Option-cases (find_one_sync sync_id db)) [
    | inl missing ↦ absurd (no_base db true missing h)
    | inr (base, found) ↦
        let new = new_id db true h in
        let same = on_found db base found new in
        let reruns = last_rerun sync_id db in
        let inserted =
          rerun_found_sync-inserts t now rerun_id start b base reruns db
            (ap (λ x. x.0) (sym same) ∙ h) in
        (
          rerun_of base rerun_id (next_number reruns) start,
          ap (λ x. find_one_sync rerun_id x.1) same ∙ inserted,
          record {
            base = ap some (==→eq base.id sync_id (found_id sync_id db base found));
            progresses = refl;
            starts = refl;
            has_no_end = refl;
            runs = next_number-pos reruns;
            highest = next_number-highest sync_id db;
          },
        )
  ]

-- Let the transaction of a rerun fail although its callback was through, let the call on the
-- repository's own manager stay, and let the rerun sync be admissible. Then the rerun is answered with
-- an error, and each later request for a rerun of that id is refused as one that already exists.
pub create_rerun_left_behind :
    (t : Transactor) (now : Date) (r : CreateRerunRequest) (db : Db) (e : Error) (later : Date)
    (sync_id : Uuid) (start : Date) (b : Option Bool)
    → t.keeps_own db ≡ true
    → t.run IsolationLevel.serializable (rerun_body now r.should_rerun_not_synced r.sync) db
      ≡ (err e, db)
    → (rerun_body now r.should_rerun_not_synced r.sync db).0 ≡ ok true
    → (create_sync r.sync db).0 ≡ ok tt
    → let after = (create_rerun t now r db).1 in
      ((create_rerun t now r db).0
        ≡ err (if is_transaction_failure e then Error.transaction_failure else e))
      × (rerun_sync_if_needed t later sync_id r.sync.id start b after
          ≡ (err (sync_error SyncError.rerun_already_exists), after))
unfolding create_rerun rename_failure left_behind rerun_sync_if_needed
create_rerun_left_behind t now r db e later sync_id start b stays failed through admitted =
    ground (arith, stays, failed, through, admitted, find_one_sync-inserted r.sync db admitted)
