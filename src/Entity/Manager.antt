-- ===== src/Entity/Manager.antt =====
-- src/entity/models/entityManager.ts.
use osm_sync_tracker.Prelude.{
  ◌+◌, Bool, not, Option, none, some, get_or, List, [], ◌++◌, map, filter, length, contains, ltb,
  is_some, ◌==◌, if◌then◌else◌,
}
use osm_sync_tracker.Common.Enums.{EntityStatus, entity_status_eq}
use osm_sync_tracker.Common.Errors.{FileError, EntityError, file_error, entity_error}
use osm_sync_tracker.Common.Action.{Action, pure, gets, throw_if, or_throw, ◌>>=◌, ◌>>◌}
use osm_sync_tracker.Common.Lodash.{Lodash}
use osm_sync_tracker.Tables.{Uuid, EntityRow, FileRow, Db}
use osm_sync_tracker.Sync.Models.{PartialSync}
use osm_sync_tracker.Sync.Repository.{find_syncs}
use osm_sync_tracker.File.Repository.{find_one_file}
use osm_sync_tracker.Entity.Models.{Entity, UpdateEntity, KeyedUpdate, FiledEntity, keyed_update}
use osm_sync_tracker.Entity.Repository

-- `{ fileId, ...entity }`: a file id in the body takes the place of the one in the path.
abbrev pub with_own_file_id : Uuid → Entity → FiledEntity
with_own_file_id file_id entity = record {
  file_id = get_or entity.file_id file_id;
  entity = entity;
}

-- `{ ...entity, fileId }`
abbrev pub with_file_id : Uuid → Entity → FiledEntity
with_file_id file_id entity = record { file_id = file_id; entity = entity }

unfoldable pub create_entity : Uuid → Entity → Action Db Unit
create_entity file_id entity = do
  file ← gets (find_one_file file_id)
  or_throw file (file_error FileError.file_not_found)
  existing ← gets (Repository.find_one_entity entity.entity_id file_id)
  throw_if (is_some existing) (entity_error EntityError.entity_already_exists)
  Repository.create_entity (with_own_file_id file_id entity)

pub record EntityBulkCreationResult : Type 0 where
  pub created : List Uuid
  pub previously_completed : List Uuid

abbrev pub reruns_of : Uuid → PartialSync
reruns_of sync_id = record {
  layer_id = none;
  geometry_type = none;
  is_full = none;
  base_sync_id = some sync_id;
}

abbrev pub id_of : FiledEntity → Uuid
id_of e = e.entity.entity_id

abbrev pub row_id : EntityRow → Uuid
row_id e = e.entity_id

-- The existing entities that wait for the rerun.
abbrev pub ids_for_rerun : List EntityRow → List Uuid
ids_for_rerun rows = map row_id (filter (λ e. entity_status_eq e.status EntityStatus.in_rerun) rows)

module _ (lodash : Lodash) where
  -- The ids that stand once more further on.
  abbrev pub duplicate_ids : List Uuid → List Uuid
  duplicate_ids ids = lodash.filter_indexed (λ id i all_ids. lodash.includes all_ids id (i + 1)) ids

  -- The entities that are not there yet, and those that wait for the rerun.
  abbrev pub for_upsert : List FiledEntity → List EntityRow → List FiledEntity
  for_upsert entities existing =
      let absent = lodash.difference (map id_of entities) (map row_id existing) in
      filter (λ e. contains (id_of e) (absent ++ ids_for_rerun existing)) entities

  -- The bulk creation in a file whose sync has reruns.
  abbrev pub upsert_entities :
      List FiledEntity → Option (List EntityRow) → Action Db EntityBulkCreationResult
  upsert_entities entities none =
      Repository.update_entities (map keyed_update entities)
      >> pure (record { created = map id_of entities; previously_completed = [] })
  upsert_entities entities (some existing) =
      let upserted = for_upsert entities existing in
      let ids = map id_of upserted in
      Repository.update_entities (map keyed_update upserted)
      >> pure (record {
        created = ids;
        previously_completed = lodash.difference (map id_of entities) ids;
      })

  -- The bulk creation in a file whose sync has no rerun: no entity may exist.
  abbrev pub insert_entities :
      List FiledEntity → Option (List EntityRow) → Action Db EntityBulkCreationResult
  insert_entities entities existing = do
    throw_if (is_some existing) (entity_error EntityError.entity_already_exists)
    Repository.create_entities entities
    pure (record { created = map id_of entities; previously_completed = [] })

  -- The creation by whether the sync of the file has reruns.
  abbrev pub write_entities :
      Bool → List FiledEntity → Option (List EntityRow) → Action Db EntityBulkCreationResult
  write_entities has_reruns entities existing =
      if has_reruns then upsert_entities entities existing else insert_entities entities existing

  -- The bulk creation once the file has been found.
  unfoldable pub create_entities_in :
      FileRow → List FiledEntity → Action Db EntityBulkCreationResult
  create_entities_in file entities = do
    throw_if (ltb 0 (length (duplicate_ids (map id_of entities))))
        (entity_error EntityError.duplicate_entity)
    existing ← gets (Repository.find_many_entities_by_ids entities)
    reruns ← gets (find_syncs (reruns_of file.sync_id))
    write_entities (not (length reruns == 0)) entities existing

  unfoldable pub create_entities : Uuid → List Entity → Action Db EntityBulkCreationResult
  create_entities file_id entities_for_creation = do
    found ← gets (find_one_file file_id)
    file ← or_throw found (file_error FileError.file_not_found)
    create_entities_in file (map (with_file_id file_id) entities_for_creation)

  unfoldable pub update_entities : List KeyedUpdate → Action Db Unit
  update_entities entities = do
    throw_if (not (length (lodash.uniq_by (λ u. u.entity_id) entities) == length entities))
        (entity_error EntityError.duplicate_entity)
    entity_count ← gets (Repository.count_entities_by_ids entities)
    throw_if (not (entity_count == length entities)) (entity_error EntityError.entity_not_found)
    Repository.update_entities entities

unfoldable pub update_entity : Uuid → Uuid → UpdateEntity → Action Db Unit
update_entity file_id entity_id entity = do
  file ← gets (find_one_file file_id)
  or_throw file (file_error FileError.file_not_found)
  existing ← gets (Repository.find_one_entity entity_id file_id)
  or_throw existing (entity_error EntityError.entity_not_found)
  Repository.update_entity entity_id file_id entity
