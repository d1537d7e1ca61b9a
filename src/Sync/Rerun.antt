-- ===== src/Sync/Rerun.antt =====
-- The rerun transaction of src/sync/DAL/syncRepository.ts: its raw SQL statements, and `createRerun`.
-- `now` is LOCALTIMESTAMP.
use osm_sync_tracker.Prelude.{
  ℕ, Bool, true, false, not, ◌&&◌, ◌||◌, Option, none, some, List, [], ◌∷◌, map, filter, any, count,
  update_where, contains, ltb, ◌==◌, if◌then◌else◌, option_eq,
}
use osm_sync_tracker.Common.Enums.{Status, EntityStatus, status_eq, entity_status_eq}
use osm_sync_tracker.Common.Action.{
  Action, ok, err, pure, gets, attempt, modify, ◌>>=◌, ◌>>◌, Result,
}
use osm_sync_tracker.Common.Db.{ReturningResult, IsolationLevel, Transactor, rename_failure}
use osm_sync_tracker.Tables.{
  Uuid, Date, SyncRow, FileRow, EntityRow, EntityHistoryRow, Db, same_history, history_refers,
  insert_rows,
}
use osm_sync_tracker.Sync.Models.{CreateRerunRequest}
use osm_sync_tracker.Sync.Repository.{
  create_sync, find_one_sync_with_last_rerun, close_sync, completed_files, is_rerun_of,
}

abbrev pub has_entity : Db → Uuid → Bool
has_entity db file_id = any (λ e. e.file_id == file_id) db.entities

-- The files of the sync, EXCEPT those that an entity is registered to.
abbrev pub is_empty_file : Uuid → Db → FileRow → Bool
is_empty_file base db f = f.sync_id == base && not (has_entity db f.file_id)

-- `DELETE`, with the rows that refer to a deleted file (ON DELETE CASCADE).
unfoldable pub delete_empty_files : Uuid → Action Db (ReturningResult Uuid)
delete_empty_files base db =
    let gone = filter (is_empty_file base db) db.files in
    let ids = map (λ f. f.file_id) gone in
    (
      ok (ids, count (is_empty_file base db) db.files),
      record db {
        files = filter (λ f. not (is_empty_file base db f)) db.files;
        entities = filter (λ e. not (contains e.file_id ids)) db.entities;
        history = filter (λ h. not (contains h.file_id ids)) db.history;
      },
    )

abbrev pub is_closable_base : Uuid → Db → SyncRow → Bool
is_closable_base base db s =
    s.id == base && option_eq ◌==◌ s.total_files (some (completed_files s.id db))

unfoldable pub try_closing_sync : Date → Uuid → Action Db (ReturningResult Uuid)
try_closing_sync now base db =
    let closed = is_closable_base base db in
    (
      ok (map (λ s. s.id) (filter closed db.syncs), count closed db.syncs),
      record db { syncs = update_where closed (close_sync now) db.syncs },
    )

-- `JOIN file f ON e.file_id = f.file_id WHERE f.sync_id = $1`
abbrev pub is_in_sync : Uuid → Db → EntityRow → Bool
is_in_sync base db e = any (λ f. f.file_id == e.file_id && f.sync_id == base) db.files

-- The sync and its reruns: `SELECT id FROM sync WHERE base_sync_id = $1 UNION SELECT $1`.
abbrev pub is_run_of : Uuid → Db → Uuid → Bool
is_run_of base db id = id == base || any (λ s. s.id == id && is_rerun_of base s) db.syncs

abbrev pub was_completed : Uuid → Db → EntityRow → Bool
was_completed base db e =
    any
      (λ h.
        h.entity_id == e.entity_id
        && is_run_of base db h.sync_id
        && entity_status_eq h.status EntityStatus.completed)
      db.history

-- The rows of `entities_for_history`. Both sides of EXCEPT hold the key of the entity, so a row is
-- dropped exactly if the row itself stands on the right.
abbrev pub is_for_history : Uuid → Db → EntityRow → Bool
is_for_history base db e =
    is_in_sync base db e
    && not (entity_status_eq e.status EntityStatus.in_rerun)
    && not (was_completed base db e)

abbrev pub history_row : Uuid → Option Uuid → EntityRow → EntityHistoryRow
history_row sync_id base_sync_id e = record {
  sync_id = sync_id;
  base_sync_id = base_sync_id;
  entity_id = e.entity_id;
  file_id = e.file_id;
  changeset_id = e.changeset_id;
  status = e.status;
  action = e.action;
  fail_reason = e.fail_reason;
}

unfoldable pub create_entity_history : Uuid → Uuid → Option Uuid → Action Db Unit
create_entity_history base sync_id history_base = attempt λ db.
    let rows =
      map (history_row sync_id history_base) (filter (is_for_history base db) db.entities) in
    elim (insert_rows same_history (history_refers db) rows db.history) [
      | ok history ↦ ok (tt, record db { history = history })
      | err e ↦ err e
    ]

abbrev pub is_not_synced_in : Uuid → EntityRow → Bool
is_not_synced_in file_id e =
    e.file_id == file_id && entity_status_eq e.status EntityStatus.not_synced

unfoldable pub prepare_incomplete_files : Uuid → Db → Db
prepare_incomplete_files base db =
    let ids =
      map (λ f. f.file_id)
        (filter (λ f. f.sync_id == base && any (is_not_synced_in f.file_id) db.entities)
          db.files) in
    record db {
      files =
          update_where (λ f. contains f.file_id ids) (λ f. record f { status = Status.in_progress })
            db.files;
    }

abbrev pub is_for_rerun : Uuid → List EntityStatus → Db → EntityRow → Bool
is_for_rerun base statuses db e = is_in_sync base db e && any (entity_status_eq e.status) statuses

abbrev pub reset_entity : EntityRow → EntityRow
reset_entity e = record e {
  status = EntityStatus.in_rerun;
  changeset_id = none;
  fail_reason = none;
  action = none;
}

-- The self join is on the primary key: the row that is tested is the row that is updated.
unfoldable pub prepare_incomplete_entities : Uuid → List EntityStatus → Db → Db
prepare_incomplete_entities base statuses db = record db {
  entities = update_where (is_for_rerun base statuses db) reset_entity db.entities;
}

-- An entity that needs no more work.
abbrev pub is_closed_entity : EntityRow → Bool
is_closed_entity e =
    entity_status_eq e.status EntityStatus.completed
    || entity_status_eq e.status EntityStatus.not_synced

abbrev pub closed_entities : Uuid → Db → ℕ
closed_entities file_id db = count (λ e. e.file_id == file_id && is_closed_entity e) db.entities

abbrev pub close_file : Date → FileRow → FileRow
close_file now f = record f { status = Status.completed; end_date = some now }

-- A file of no closed entity has no row in the grouped table.
unfoldable pub update_dangling_files_as_completed : Date → Uuid → Db → Db
update_dangling_files_as_completed now sync_id db =
    let dangling =
      map (λ f. f.file_id)
        (filter (λ f. f.sync_id == sync_id && status_eq f.status Status.in_progress) db.files) in
    record db {
      files =
          update_where
            (λ f.
              contains f.file_id dangling
              && ltb 0 (closed_entities f.file_id db)
              && option_eq ◌==◌ f.total_entities (some (closed_entities f.file_id db))
              && not (status_eq f.status Status.completed))
            (close_file now) db.files;
    }

abbrev pub statuses_for_rerun : Bool → List EntityStatus
statuses_for_rerun true =
    EntityStatus.in_progress ∷ EntityStatus.not_synced ∷ EntityStatus.failed ∷ []
statuses_for_rerun false = EntityStatus.in_progress ∷ EntityStatus.failed ∷ []

-- The run whose entities go into the history: the last rerun, or the sync itself.
abbrev pub first_id : Uuid → List SyncRow → Uuid
first_id base [] = base
first_id base (r ∷ _) = r.id

abbrev pub latest_run_id : Uuid → Db → Uuid
latest_run_id base db = elim (find_one_sync_with_last_rerun base db) [
  | none ↦ base
  | some s ↦ first_id base s.reruns
]

-- The second half of the callback, where the sync was not closed.
unfoldable pub prepare_rerun : Date → Uuid → Bool → SyncRow → Action Db Bool
prepare_rerun now base not_synced rerun = do
  latest ← gets (latest_run_id base)
  create_entity_history base latest (if latest == base then none else some base)
  modify (
      if not_synced
      then prepare_incomplete_files base
      else update_dangling_files_as_completed now base)
  modify (prepare_incomplete_entities base (statuses_for_rerun not_synced))
  create_sync rerun
  pure true

-- The callback of the transaction. Closing the sync is tried only if files were deleted.
unfoldable pub rerun_steps : Date → Uuid → Bool → SyncRow → Action Db Bool
rerun_steps now base not_synced rerun = do
  deleted ← delete_empty_files base
  closed ← if deleted.1 == 0 then pure ([], 0) else try_closing_sync now base
  if closed.1 == 0 then prepare_rerun now base not_synced rerun else pure false

-- With no base sync the statements match no row, and the sync alone is created.
unfoldable pub rerun_body : Date → Bool → SyncRow → Action Db Bool
rerun_body now not_synced rerun = elim rerun.base_sync_id [
  | none ↦ create_sync rerun >> pure true
  | some base ↦ rerun_steps now base not_synced rerun
]

-- The rerun sync is inserted by the repository's own manager, as the callback's last call.
unfoldable pub left_behind : Bool → Result Bool → SyncRow → Db → Db
left_behind true (ok true) sync db = (create_sync sync db).1
left_behind _ _ sync db = db

unfoldable pub create_rerun : Transactor → Date → CreateRerunRequest → Action Db Bool
create_rerun t now request db =
    let body = rerun_body now request.should_rerun_not_synced request.sync in
    let (r, db') = t.run IsolationLevel.serializable body db in
    elim r [
      | ok created ↦ (ok created, db')
      | err e ↦ rename_failure e (left_behind (t.keeps_own db) (body db).0 request.sync db')
    ]
