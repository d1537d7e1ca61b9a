-- ===== src/Tests/SyncRuns.antt =====
-- The theorems on syncs and requests at the sample database.
use osm_sync_tracker.Sync.Creation.{create_sync_lem}
use osm_sync_tracker.Sync.History.{create_rerun_history, remaining, record_of, is_recorded}
use osm_sync_tracker.Sync.LastRun.{IsLastRun}
use osm_sync_tracker.Sync.Effects.{create_rerun_entities}
use osm_sync_tracker.Common.Errors.{SqlState, Error, sync_error, SyncError}
use osm_sync_tracker.Common.Db.{IsolationLevel, is_transaction_failure}
use osm_sync_tracker.Sync.Metadata.{property, or_else, object_of, update_sync_merges}
use osm_sync_tracker.Invariant.Requests.{serve_atomic}
use osm_sync_tracker.Sync.Closure.{attempt_sync_closure_lem, attempt_sync_closure_again}
use osm_sync_tracker.Common.Action.{ok, err}
use osm_sync_tracker.Tables.{Metadata, SyncRow, Json, Uuid}
use osm_sync_tracker.Prelude.{
  map, filter, none, refl, ◌≡◌, some, true, String, [], ◌∷◌, patch, false, if◌then◌else◌, ◌++◌,
}
use osm_sync_tracker.Sync.Latest.{IsLatest, get_latest_sync_lem}
use osm_sync_tracker.Sync.Runs.{
  IsGranted, rerun_sync_if_needed-IsGranted, IsNextRun, rerun_sync_if_needed_created,
  create_rerun_left_behind,
}
use osm_sync_tracker.Sync.Models.{SyncUpdate, CreateRerunRequest}
use osm_sync_tracker.Http.Reply.{Reply, StatusCode}
use osm_sync_tracker.Tests.Instances.{alone, lodash, lost}
use osm_sync_tracker.Tests.Samples.{sync, failed_db, open_db, filed_db, entity}
use osm_sync_tracker.Sync.Manager
use osm_sync_tracker.Sync.Repository
use osm_sync_tracker.Sync.Rerun
use osm_sync_tracker.Http.Syncs
use osm_sync_tracker.Http.Routes.{serve, Request}
use osm_sync_tracker.Common.Enums.{Status, GeometryType, EntityStatus}

granted : (Manager.rerun_sync_if_needed alone 900 1 2 800 none failed_db).0 ≡ ok true
unfolding Manager.rerun_sync_if_needed Manager.rerun_found_sync Repository.find_one_sync
    Repository.find_one_sync_with_last_rerun Rerun.create_rerun Rerun.rerun_body Rerun.rerun_steps
    Rerun.delete_empty_files Rerun.try_closing_sync Rerun.prepare_rerun Rerun.create_entity_history
    Rerun.prepare_incomplete_files Rerun.prepare_incomplete_entities
    Rerun.update_dangling_files_as_completed Repository.create_sync
granted = refl

rerun_sync_if_needed-IsGranted_example : IsGranted failed_db 1 2
rerun_sync_if_needed-IsGranted_example =
    rerun_sync_if_needed-IsGranted alone 900 1 2 800 none failed_db true granted

rerun_sync_if_needed_created_example :
    (rerun : SyncRow) × (Repository.find_one_sync 2
        (Manager.rerun_sync_if_needed alone 900 1 2 800 none failed_db).1
      ≡ some rerun)
    × IsNextRun 1 800 failed_db rerun
rerun_sync_if_needed_created_example =
    rerun_sync_if_needed_created alone 900 1 2 800 none failed_db granted

found : Repository.find_one_sync 1 filed_db ≡ some (sync Status.in_progress)
unfolding Repository.find_one_sync
found = refl

attempt_sync_closure_lem_example :
    Repository.find_one_sync 1 (Repository.attempt_sync_closure 500 1 filed_db).1
    ≡ some (record (sync Status.in_progress) { status = Status.completed; end_date = some 500 })
attempt_sync_closure_lem_example =
    attempt_sync_closure_lem 500 1 1 filed_db (sync Status.in_progress) found refl

attempt_sync_closure_again_example :
    let after = (Repository.attempt_sync_closure 500 1 filed_db).1 in
    Repository.attempt_sync_closure 600 1 after ≡ (ok ([], 0), after)
attempt_sync_closure_again_example = attempt_sync_closure_again 500 600 1 filed_db

get_latest_sync_lem_example :
    IsLatest 7 GeometryType.point failed_db
      (Repository.get_latest_sync 7 GeometryType.point failed_db)
get_latest_sync_lem_example = get_latest_sync_lem 7 GeometryType.point failed_db

abbrev new_metadata : SyncUpdate
new_metadata = record {
  dump_date = none;
  start_date = none;
  end_date = none;
  status = some Status.failed;
  layer_id = none;
  total_files = none;
  geometry_type = none;
  base_sync_id = none;
  run_number = none;
  metadata = some (some (("count", Json.num 4) ∷ []));
}

updated : (Manager.update_sync 1 new_metadata open_db).0 ≡ ok tt
unfolding Manager.update_sync Repository.update_sync Repository.find_one_sync
    osm_sync_tracker.Sync.Models.gives_columns
updated = refl

found_open : Repository.find_one_sync 1 open_db ≡ some (sync Status.in_progress)
unfolding Repository.find_one_sync
found_open = refl

update_sync_merges_example :
    (m : Metadata) × (Repository.find_one_sync 1 (Manager.update_sync 1 new_metadata open_db).1
      ≡ some (record (Repository.patch_sync new_metadata (sync Status.in_progress)) {
        metadata = some m;
      }))
    × ((name : String)
        → property name m
          ≡ or_else
              (property name (object_of (patch new_metadata.metadata none)))
              (property name (object_of (sync Status.in_progress).metadata)))
update_sync_merges_example =
    update_sync_merges 1 new_metadata open_db (sync Status.in_progress) found_open updated

refused :
    (serve alone lodash (Request.post_sync (sync Status.in_progress)) open_db).0
    ≡ Reply.next (sync_error SyncError.sync_already_exists) (some StatusCode.conflict_409)
unfolding serve Syncs.post_sync Manager.create_sync Repository.find_one_sync
refused = refl

serve_atomic_example :
    (serve alone lodash (Request.post_sync (sync Status.in_progress)) open_db).1 ≡ open_db
serve_atomic_example =
    serve_atomic alone lodash (Request.post_sync (sync Status.in_progress)) open_db
      (sync_error SyncError.sync_already_exists) (some StatusCode.conflict_409) refl refused

abbrev request : CreateRerunRequest
request = Manager.rerun_request (sync Status.failed) 2 800 none 1

abbrev serialization_failure : Error
serialization_failure = Error.query_failed (some SqlState.serialization_failure)

through : (Rerun.rerun_body 900 false request.sync failed_db).0 ≡ ok true
unfolding Repository.find_one_sync Repository.find_one_sync_with_last_rerun Rerun.rerun_body
    Rerun.rerun_steps Rerun.delete_empty_files Rerun.try_closing_sync Rerun.prepare_rerun
    Rerun.create_entity_history Rerun.prepare_incomplete_files Rerun.prepare_incomplete_entities
    Rerun.update_dangling_files_as_completed Repository.create_sync
through = refl

failed_at_commit :
    lost.run IsolationLevel.serializable (Rerun.rerun_body 900 false request.sync) failed_db
    ≡ (err serialization_failure, failed_db)
unfolding Repository.find_one_sync Repository.find_one_sync_with_last_rerun Rerun.rerun_body
    Rerun.rerun_steps Rerun.delete_empty_files Rerun.try_closing_sync Rerun.prepare_rerun
    Rerun.create_entity_history Rerun.prepare_incomplete_files Rerun.prepare_incomplete_entities
    Rerun.update_dangling_files_as_completed Repository.create_sync
failed_at_commit = refl

admitted : (Repository.create_sync request.sync failed_db).0 ≡ ok tt
unfolding Repository.create_sync
admitted = refl

create_rerun_left_behind_example :
    let after = (Rerun.create_rerun lost 900 request failed_db).1 in
    ((Rerun.create_rerun lost 900 request failed_db).0
      ≡ err (
          if is_transaction_failure serialization_failure
          then Error.transaction_failure
          else serialization_failure))
    × (Manager.rerun_sync_if_needed lost 950 1 2 850 none after
        ≡ (err (sync_error SyncError.rerun_already_exists), after))
create_rerun_left_behind_example =
    create_rerun_left_behind lost 900 request failed_db serialization_failure 950 1 850 none refl
      failed_at_commit through admitted

created : (Rerun.create_rerun alone 900 request failed_db).0 ≡ ok true
unfolding Repository.find_one_sync Repository.find_one_sync_with_last_rerun Rerun.create_rerun
    Rerun.rerun_body Rerun.rerun_steps Rerun.delete_empty_files Rerun.try_closing_sync
    Rerun.prepare_rerun Rerun.create_entity_history Rerun.prepare_incomplete_files
    Rerun.prepare_incomplete_entities Rerun.update_dangling_files_as_completed
    Repository.create_sync
created = refl

create_rerun_entities_example :
    (Rerun.create_rerun alone 900 request failed_db).1.entities
    ≡ entity 100 EntityStatus.completed
      ∷ record (entity 101 EntityStatus.in_rerun) { changeset_id = none; action = none }
      ∷ []
create_rerun_entities_example = create_rerun_entities alone 900 request 1 failed_db refl created

create_sync_lem_example :
    Manager.create_sync (sync Status.in_progress) open_db
    ≡ (err (sync_error SyncError.sync_already_exists), open_db)
create_sync_lem_example = create_sync_lem (sync Status.in_progress) open_db

base_found : Repository.find_one_sync 1 failed_db ≡ some (sync Status.failed)
unfolding Repository.find_one_sync
base_found = refl

create_rerun_history_example :
    (run : Uuid) × IsLastRun 1 failed_db run
    × ((Rerun.create_rerun alone 900 request failed_db).1.history
        ≡ remaining 1 failed_db
          ++ map (record_of 1 run) (filter (is_recorded 1 failed_db) failed_db.entities))
create_rerun_history_example =
    create_rerun_history alone 900 request 1 (sync Status.failed) failed_db refl base_found created
