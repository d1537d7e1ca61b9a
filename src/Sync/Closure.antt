-- ===== src/Sync/Closure.antt =====
-- What the closure of a sync does: `attemptSyncClosure` of src/sync/DAL/syncRepository.ts.
use osm_sync_tracker.Common.Enums.{status_eq, Status}
use osm_sync_tracker.Common.Action.{ok}
use osm_sync_tracker.Tables.{Date, Db, SyncRow, Uuid, FileRow}
use osm_sync_tracker.Prelude.{
  false, some, [], ◌≡◌, refl, arith, any, update_where, ◌==◌, if◌then◌else◌, any-update_where,
  filter-none, count-none, update_where-none, option_eq, find-update_where, find_sound, ℕ, Bool,
  all, count, count-eq→all, true, all→count-eq, Bool-cases, ◌&&◌, not, ◌||◌,
}
use osm_sync_tracker.Sync.Repository.{
  attempt_sync_closure, find_one_sync, is_up_for_closure, close_sync, completed_files,
}

attempt_sync_closure-none :
    (now : Date) (sync_id : Uuid) (db : Db)
    → any (is_up_for_closure sync_id db) db.syncs ≡ false
    → attempt_sync_closure now sync_id db ≡ (ok ([], 0), db)
unfolding attempt_sync_closure
attempt_sync_closure-none now sync_id db h = rw (
  filter-none (is_up_for_closure sync_id db) db.syncs h,
  count-none (is_up_for_closure sync_id db) db.syncs h,
  update_where-none (is_up_for_closure sync_id db) (close_sync now) db.syncs h,
)

again_not_up :
    (now : Date) (sync_id : Uuid) (db : Db)
    → let after = (attempt_sync_closure now sync_id db).1 in
      any (is_up_for_closure sync_id after) after.syncs ≡ false
unfolding attempt_sync_closure
again_not_up now sync_id db =
    let closed = is_up_for_closure sync_id db in
    let after = record db { syncs = update_where closed (close_sync now) db.syncs } in
    any-update_where closed (is_up_for_closure sync_id after) (close_sync now) (λ x h. ground arith)
      (λ x h. h) db.syncs

-- A second attempt to close a sync, at any later time, reports nothing closed and leaves the database
-- as the first attempt left it.
pub attempt_sync_closure_again :
    (now later : Date) (sync_id : Uuid) (db : Db)
    → let after = (attempt_sync_closure now sync_id db).1 in
      attempt_sync_closure later sync_id after ≡ (ok ([], 0), after)
attempt_sync_closure_again now later sync_id db =
    attempt_sync_closure-none later sync_id (attempt_sync_closure now sync_id db).1
      (again_not_up now sync_id db)

-- The number of files in a sync.
abbrev pub files_in : Uuid → Db → ℕ
files_in sync_id db = count (λ f. f.sync_id == sync_id) db.files

-- Every file of the sync is completed.
abbrev pub all_completed : Uuid → Db → Bool
all_completed sync_id db =
    all (λ f. if f.sync_id == sync_id then status_eq f.status Status.completed else true) db.files

all_completed-eq :
    (sync_id : Uuid) (db : Db)
    → all_completed sync_id db ≡ (completed_files sync_id db == files_in sync_id db)
all_completed-eq sync_id db =
    let here = λ (f : FileRow). f.sync_id == sync_id in
    let done = λ (f : FileRow). status_eq f.status Status.completed in
    ground (
      arith,
      count-eq→all here done db.files,
      all→count-eq here done db.files,
      Bool-cases (all_completed sync_id db),
    )

-- Let a stored sync state as its total the number of files that the sync of the closure has. The
-- attempt closes it exactly if all of these files are completed and it is either that sync itself and
-- not completed yet, or a rerun of it in progress; otherwise the attempt leaves it as it was.
pub attempt_sync_closure_lem :
    (now : Date) (sync_id id : Uuid) (db : Db) (s : SyncRow)
    → find_one_sync id db ≡ some s
    → s.total_files ≡ some (files_in sync_id db)
    → find_one_sync id (attempt_sync_closure now sync_id db).1
      ≡ some (
          if all_completed sync_id db
            && ((id == sync_id && not (status_eq s.status Status.completed))
                || (option_eq ◌==◌ s.base_sync_id (some sync_id)
                    && status_eq s.status Status.in_progress))
          then record s { status = Status.completed; end_date = some now }
          else s)
unfolding attempt_sync_closure find_one_sync
attempt_sync_closure_lem now sync_id id db s found total =
    rw
      (find-update_where (λ r. r.id == id) (is_up_for_closure sync_id db) (close_sync now) db.syncs
        (λ x. refl))
      (ground
        (arith, found, all_completed-eq sync_id db, find_sound (λ r. r.id == id) db.syncs s found))
