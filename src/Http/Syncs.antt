-- ===== src/Http/Syncs.antt =====
-- src/sync/controllers/syncController.ts.
use osm_sync_tracker.Prelude.{ℕ, Bool, Option, none, some, List, if◌then◌else◌}
use osm_sync_tracker.Common.Enums.{GeometryType}
use osm_sync_tracker.Common.Errors.{Error, SyncError, sync_error}
use osm_sync_tracker.Common.Db.{Transactor}
use osm_sync_tracker.Tables.{Uuid, Date, SyncRow, Db}
use osm_sync_tracker.Sync.Models.{SyncUpdate, SyncsFilter}
use osm_sync_tracker.Sync.Manager
use osm_sync_tracker.Queue.Types.{JobQueueProvider}
use osm_sync_tracker.Queue.Closures.{create_sync_closures}
use osm_sync_tracker.Http.Reply.{StatusCode, Reply, respond, no_status}

abbrev pub if_sync_not_found : Error → Option StatusCode
if_sync_not_found (sync_error SyncError.sync_not_found) = some StatusCode.not_found_404
if_sync_not_found _ = none

abbrev pub if_sync_exists : Error → Option StatusCode
if_sync_exists (sync_error SyncError.sync_already_exists) = some StatusCode.conflict_409
if_sync_exists (sync_error SyncError.full_sync_already_exists) = some StatusCode.conflict_409
if_sync_exists _ = none

abbrev pub if_rerun_refused : Error → Option StatusCode
if_rerun_refused (sync_error SyncError.sync_not_found) = some StatusCode.not_found_404
if_rerun_refused (sync_error SyncError.rerun_already_exists) = some StatusCode.conflict_409
if_rerun_refused (sync_error SyncError.invalid_sync_for_rerun) = some StatusCode.conflict_409
if_rerun_refused _ = none

unfoldable pub get_syncs : SyncsFilter → Db → Reply (List SyncRow) × Db
get_syncs query = respond (λ _. StatusCode.ok_200) no_status (Manager.get_syncs query)

unfoldable pub get_latest_sync : ℕ → GeometryType → Db → Reply SyncRow × Db
get_latest_sync layer_id geometry_type =
    respond (λ _. StatusCode.ok_200) if_sync_not_found
      (Manager.get_latest_sync layer_id geometry_type)

unfoldable pub post_sync : SyncRow → Db → Reply Unit × Db
post_sync body = respond (λ _. StatusCode.created_201) if_sync_exists (Manager.create_sync body)

unfoldable pub patch_sync : Uuid → SyncUpdate → Db → Reply Unit × Db
patch_sync sync_id body =
    respond (λ _. StatusCode.ok_200) if_sync_not_found (Manager.update_sync sync_id body)

unfoldable pub post_syncs_closure :
    {Q : Type 0} → JobQueueProvider Q → List Uuid → Q → Reply Unit × Q
post_syncs_closure queue body =
    respond (λ _. StatusCode.created_201) no_status (create_sync_closures queue body)

unfoldable pub rerun_sync :
    Transactor → Date → Uuid → Uuid → Date → Option Bool → Db → Reply Bool × Db
rerun_sync t now sync_id rerun_id start_date should_rerun_not_synced =
    respond (λ created. if created then StatusCode.created_201 else StatusCode.ok_200)
      if_rerun_refused
      (Manager.rerun_sync_if_needed t now sync_id rerun_id start_date should_rerun_not_synced)
