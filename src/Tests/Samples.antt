-- ===== src/Tests/Samples.antt =====
-- A failed sync of one file with two entities, on its way to a rerun and to its closure.
use osm_sync_tracker.Queue.Types.{ClosureJob, closure_job, ClosureKind}
use osm_sync_tracker.Prelude.{none, some, false, ◌∷◌, []}
use osm_sync_tracker.Common.Enums.{Status, EntityStatus, GeometryType, ActionType}
use osm_sync_tracker.Tables.{SyncRow, FileRow, EntityRow, Db, Uuid, Json}

abbrev pub sync : Status → SyncRow
sync status = record {
  id = 1;
  dump_date = 100;
  start_date = 101;
  end_date = none;
  status = status;
  layer_id = 7;
  is_full = false;
  total_files = some 1;
  geometry_type = GeometryType.point;
  base_sync_id = none;
  run_number = 0;
  metadata = some (("source", Json.str "weekly") ∷ ("count", Json.num 3) ∷ []);
}

abbrev pub file : Status → FileRow
file status = record {
  file_id = 10;
  sync_id = 1;
  start_date = 102;
  end_date = none;
  status = status;
  total_entities = some 2;
}

abbrev pub entity : Uuid → EntityStatus → EntityRow
entity id status = record {
  entity_id = id;
  file_id = 10;
  changeset_id = some 50;
  status = status;
  action = some ActionType.create;
  fail_reason = none;
}

abbrev pub database : Status → Status → EntityStatus → Db
database of_sync of_file of_entity = record {
  syncs = sync of_sync ∷ [];
  files = file of_file ∷ [];
  entities = entity 100 EntityStatus.completed ∷ entity 101 of_entity ∷ [];
  history = [];
  changesets = record { changeset_id = 50; osm_id = none } ∷ [];
}

-- One entity has failed, and with it the sync.
abbrev pub failed_db : Db
failed_db = database Status.failed Status.in_progress EntityStatus.failed

-- All the entities are closed, the file is not.
abbrev pub open_db : Db
open_db = database Status.in_progress Status.in_progress EntityStatus.not_synced

-- The file is completed, the sync is not.
abbrev pub filed_db : Db
filed_db = database Status.in_progress Status.completed EntityStatus.completed

abbrev pub job : Uuid → ClosureJob
job id = closure_job ClosureKind.file id
