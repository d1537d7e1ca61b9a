-- ===== src/Http/Files.antt =====
-- src/file/controllers/fileController.ts.
use osm_sync_tracker.Prelude.{Option, none, some, List}
use osm_sync_tracker.Common.Errors.{Error, SyncError, FileError, sync_error, file_error}
use osm_sync_tracker.Common.Lodash.{Lodash}
use osm_sync_tracker.Tables.{Uuid, Db}
use osm_sync_tracker.File.Models.{File, FileUpdate}
use osm_sync_tracker.File.Manager
use osm_sync_tracker.Queue.Types.{JobQueueProvider}
use osm_sync_tracker.Queue.Closures.{create_file_closures}
use osm_sync_tracker.Http.Reply.{StatusCode, Reply, respond, no_status}

abbrev pub if_file_refused : Error → Option StatusCode
if_file_refused (file_error FileError.file_already_exists) = some StatusCode.conflict_409
if_file_refused (file_error FileError.conflicting_rerun_file) = some StatusCode.conflict_409
if_file_refused (sync_error SyncError.sync_not_found) = some StatusCode.not_found_404
if_file_refused _ = none

abbrev pub if_files_refused : Error → Option StatusCode
if_files_refused (file_error FileError.file_already_exists) = some StatusCode.conflict_409
if_files_refused (file_error FileError.duplicate_files) = some StatusCode.conflict_409
if_files_refused (sync_error SyncError.sync_not_found) = some StatusCode.not_found_404
if_files_refused _ = none

abbrev pub if_file_missing : Error → Option StatusCode
if_file_missing (sync_error SyncError.sync_not_found) = some StatusCode.not_found_404
if_file_missing (file_error FileError.file_not_found) = some StatusCode.not_found_404
if_file_missing _ = none

unfoldable pub post_file : Uuid → File → Db → Reply Unit × Db
post_file sync_id body =
    respond (λ _. StatusCode.created_201) if_file_refused (Manager.create_file sync_id body)

unfoldable pub post_files : Lodash → Uuid → List File → Db → Reply Unit × Db
post_files lodash sync_id body =
    respond (λ _. StatusCode.created_201) if_files_refused
      (Manager.create_files lodash sync_id body)

unfoldable pub patch_file : Uuid → Uuid → FileUpdate → Db → Reply Unit × Db
patch_file sync_id file_id body =
    respond (λ _. StatusCode.ok_200) if_file_missing (Manager.update_file sync_id file_id body)

unfoldable pub post_files_closure :
    {Q : Type 0} → JobQueueProvider Q → List Uuid → Q → Reply Unit × Q
post_files_closure queue body =
    respond (λ _. StatusCode.created_201) no_status (create_file_closures queue body)
