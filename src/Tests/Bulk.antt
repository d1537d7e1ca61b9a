-- ===== src/Tests/Bulk.antt =====
-- A bulk update of the two entities of the sample, and a bulk creation of files.
use osm_sync_tracker.Prelude.{none, some, List, [], ◌∷◌, ◌≡◌, refl, true, map, all, any, ◌++◌}
use osm_sync_tracker.Common.Action.{ok}
use osm_sync_tracker.Common.Enums.{EntityStatus, Status}
use osm_sync_tracker.Tables.{Uuid, same_entity, distinct}
use osm_sync_tracker.Entity.Models.{KeyedUpdate}
use osm_sync_tracker.Entity.Manager.{update_entities}
use osm_sync_tracker.Entity.Repository
use osm_sync_tracker.Entity.Updates.{names, updated_by, update_entities_lem}
use osm_sync_tracker.File.Models.{File}
use osm_sync_tracker.File.Manager.{create_files}
use osm_sync_tracker.File.Bulk.{rows_in, create_files_lem}
use osm_sync_tracker.Tests.Instances.{lodash}
use osm_sync_tracker.Tests.Samples.{open_db}

abbrev update_to : Uuid → EntityStatus → KeyedUpdate
update_to id status = record {
  entity_id = id;
  file_id = 10;
  update = record {
    changeset_id = none;
    status = some status;
    action = none;
    fail_reason = some (some "conflict");
  };
}

abbrev updates : List KeyedUpdate
updates = update_to 101 EntityStatus.failed ∷ update_to 100 EntityStatus.not_synced ∷ []

keyed : distinct same_entity open_db.entities ≡ true
keyed = refl

succeeds : (update_entities lodash updates open_db).0 ≡ ok tt
unfolding update_entities Repository.update_entities Repository.count_entities_by_ids
succeeds = refl

update_entities_lem_example :
    (all (λ u. any (names u) open_db.entities) updates ≡ true)
    × ((update_entities lodash updates open_db).1
        ≡ record open_db { entities = map (updated_by updates) open_db.entities })
update_entities_lem_example = update_entities_lem lodash updates open_db keyed succeeds

abbrev new_file : Uuid → File
new_file id = record {
  file_id = id;
  sync_id = 9;
  total_entities = some (some 4);
  start_date = 300;
  end_date = none;
  status = Status.in_progress;
}

create_files_lem_example : create_files lodash 1 (new_file 20 ∷ new_file 21 ∷ []) open_db ≡ (
  ok tt,
  record open_db { files = open_db.files ++ rows_in 1 (new_file 20 ∷ new_file 21 ∷ []) },
)
create_files_lem_example = create_files_lem lodash 1 (new_file 20 ∷ new_file 21 ∷ []) open_db
