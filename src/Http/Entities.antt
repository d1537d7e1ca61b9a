-- ===== src/Http/Entities.antt =====
-- src/entity/controllers/entityController.ts.
use osm_sync_tracker.Prelude.{Option, none, some, List}
use osm_sync_tracker.Common.Errors.{Error, FileError, EntityError, file_error, entity_error}
use osm_sync_tracker.Common.Lodash.{Lodash}
use osm_sync_tracker.Tables.{Uuid, Db}
use osm_sync_tracker.Entity.Models.{Entity, UpdateEntity, KeyedUpdate}
use osm_sync_tracker.Entity.Manager
use osm_sync_tracker.Entity.Manager.{EntityBulkCreationResult}
use osm_sync_tracker.Http.Reply.{StatusCode, Reply, respond}

abbrev pub if_entity_refused : Error → Option StatusCode
if_entity_refused (entity_error EntityError.entity_already_exists) = some StatusCode.conflict_409
if_entity_refused (file_error FileError.file_not_found) = some StatusCode.not_found_404
if_entity_refused _ = none

abbrev pub if_entities_refused : Error → Option StatusCode
if_entities_refused (entity_error EntityError.entity_already_exists) = some StatusCode.conflict_409
if_entities_refused (entity_error EntityError.duplicate_entity) = some StatusCode.conflict_409
if_entities_refused (file_error FileError.file_not_found) = some StatusCode.not_found_404
if_entities_refused _ = none

abbrev pub if_entity_not_found : Error → Option StatusCode
if_entity_not_found (entity_error EntityError.entity_not_found) = some StatusCode.not_found_404
if_entity_not_found _ = none

abbrev pub if_update_refused : Error → Option StatusCode
if_update_refused (entity_error EntityError.duplicate_entity) = some StatusCode.conflict_409
if_update_refused (entity_error EntityError.entity_not_found) = some StatusCode.not_found_404
if_update_refused _ = none

unfoldable pub post_entity : Uuid → Entity → Db → Reply Unit × Db
post_entity file_id body =
    respond (λ _. StatusCode.created_201) if_entity_refused (Manager.create_entity file_id body)

unfoldable pub post_entities :
    Lodash → Uuid → List Entity → Db → Reply EntityBulkCreationResult × Db
post_entities lodash file_id body =
    respond (λ _. StatusCode.created_201) if_entities_refused
      (Manager.create_entities lodash file_id body)

unfoldable pub patch_entity : Uuid → Uuid → UpdateEntity → Db → Reply Unit × Db
patch_entity file_id entity_id body =
    respond (λ _. StatusCode.ok_200) if_entity_not_found
      (Manager.update_entity file_id entity_id body)

unfoldable pub patch_entities : Lodash → List KeyedUpdate → Db → Reply Unit × Db
patch_entities lodash body =
    respond (λ _. StatusCode.ok_200) if_update_refused (Manager.update_entities lodash body)
