-- ===== src/File/Manager.antt =====
-- src/file/models/fileManager.ts, but for the closures.
use osm_sync_tracker.Prelude.{not, none, some, List, map, length, is_some, patch, ◌==◌, option_eq}
use osm_sync_tracker.Common.Errors.{SyncError, FileError, sync_error, file_error}
use osm_sync_tracker.Common.Action.{Action, gets, throw_if, or_throw, ◌>>=◌, ◌>>◌}
use osm_sync_tracker.Common.Lodash.{Lodash}
use osm_sync_tracker.Tables.{Uuid, FileRow, Db}
use osm_sync_tracker.Sync.Repository.{find_one_sync}
use osm_sync_tracker.File.Models.{File, FileUpdate}
use osm_sync_tracker.File.Repository

-- `{ ...file, syncId }`
abbrev pub with_sync_id : Uuid → File → File
with_sync_id sync_id file = record file { sync_id = sync_id }

-- The rerun file against the file that is there: `!=` takes null and a missing value for the same.
abbrev pub check_rerun_file : Uuid → File → FileRow → Action Db Unit
check_rerun_file base_sync_id rerun_file file = do
  throw_if (not (base_sync_id == file.sync_id)) (file_error FileError.conflicting_rerun_file)
  throw_if (not (option_eq ◌==◌ (patch rerun_file.total_entities none) file.total_entities))
      (file_error FileError.conflicting_rerun_file)

abbrev pub create_rerun_file : Uuid → File → Action Db Unit
create_rerun_file base_sync_id rerun_file db =
    elim (Repository.find_one_file rerun_file.file_id db) [
      | none ↦ Repository.create_file (with_sync_id base_sync_id rerun_file) db
      | some file ↦ check_rerun_file base_sync_id rerun_file file db
    ]

abbrev pub create_new_file : Uuid → File → Action Db Unit
create_new_file sync_id file = do
  existing ← gets (Repository.find_one_file file.file_id)
  throw_if (is_some existing) (file_error FileError.file_already_exists)
  Repository.create_file (with_sync_id sync_id file)

unfoldable pub create_file : Uuid → File → Action Db Unit
create_file sync_id file = do
  found ← gets (find_one_sync sync_id)
  sync ← or_throw found (sync_error SyncError.sync_not_found)
  elim sync.base_sync_id [
    | none ↦ create_new_file sync_id file
    | some base_sync_id ↦ create_rerun_file base_sync_id file
  ]

unfoldable pub create_files : Lodash → Uuid → List File → Action Db Unit
create_files lodash sync_id files = do
  throw_if (not (length (lodash.uniq_by (λ f. f.file_id) files) == length files))
      (file_error FileError.duplicate_files)
  found ← gets (find_one_sync sync_id)
  or_throw found (sync_error SyncError.sync_not_found)
  existing ← gets (Repository.find_many_files_by_ids files)
  throw_if (is_some existing) (file_error FileError.file_already_exists)
  Repository.create_files (map (with_sync_id sync_id) files)

unfoldable pub update_file : Uuid → Uuid → FileUpdate → Action Db Unit
update_file sync_id file_id update = do
  sync ← gets (find_one_sync sync_id)
  or_throw sync (sync_error SyncError.sync_not_found)
  file ← gets (Repository.find_one_file file_id)
  or_throw file (file_error FileError.file_not_found)
  Repository.update_file file_id update
