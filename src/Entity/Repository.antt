-- ===== src/Entity/Repository.antt =====
-- src/entity/DAL/entityRepository.ts.
use osm_sync_tracker.Prelude.{
  not, ◌||◌, length, ℕ, Bool, false, ◌&&◌, Option, none, some, List, [], ◌∷◌, ◌++◌, map, filter,
  any, all, find, count, patch, update_where, contains, ◌==◌, if◌then◌else◌,
}
use osm_sync_tracker.Common.Enums.{Status, EntityStatus, status_eq}
use osm_sync_tracker.Common.Errors.{Error, SqlState}
use osm_sync_tracker.Common.Action.{Action, ok, err, attempt}
use osm_sync_tracker.Tables.{
  Uuid, EntityRow, Db, same_entity, entity_refers, has_changeset, nullable, insert_rows,
}
use osm_sync_tracker.File.Repository.{some_unless_empty}
use osm_sync_tracker.Entity.Models.{
  gives_columns, UpdateEntity, KeyedUpdate, FiledEntity, entity_row,
}

unfoldable pub create_entities : List FiledEntity → Action Db Unit
create_entities entities = attempt λ db.
    elim (insert_rows same_entity (entity_refers db) (map entity_row entities) db.entities) [
      | ok rows ↦ ok (tt, record db { entities = rows })
      | err e ↦ err e
    ]

unfoldable pub create_entity : FiledEntity → Action Db Unit
create_entity entity = create_entities (entity ∷ [])

abbrev pub patch_entity : UpdateEntity → EntityRow → EntityRow
patch_entity u e = record e {
  changeset_id = patch u.changeset_id e.changeset_id;
  status = patch u.status e.status;
  action = patch u.action e.action;
  fail_reason = patch u.fail_reason e.fail_reason;
}

abbrev pub has_key : Uuid → Uuid → EntityRow → Bool
has_key entity_id file_id e = e.entity_id == entity_id && e.file_id == file_id

-- An update that gives no column is an error. A reference is checked where a row is written.
unfoldable pub update_entity : Uuid → Uuid → UpdateEntity → Action Db Unit
update_entity entity_id file_id update = attempt λ db.
    if not (gives_columns update)
    then err Error.other_error
    else (if not (any (has_key entity_id file_id) db.entities)
          || nullable (has_changeset db) (patch update.changeset_id none)
        then ok (
          tt,
          record db {
            entities = update_where (has_key entity_id file_id) (patch_entity update) db.entities;
          },
        )
        else err (Error.query_failed (some SqlState.foreign_key_violation)))

-- The row of an entity that is saved and not there yet: a column that is left out has its default.
abbrev pub new_row : KeyedUpdate → EntityRow
new_row u = record {
  entity_id = u.entity_id;
  file_id = u.file_id;
  changeset_id = patch u.update.changeset_id none;
  status = patch u.update.status EntityStatus.in_progress;
  action = patch u.update.action none;
  fail_reason = patch u.update.fail_reason none;
}

-- `save` of one entity: the row of its key is updated, or a new row inserted.
abbrev pub save_entity : KeyedUpdate → List EntityRow → List EntityRow
save_entity u rows =
    if any (has_key u.entity_id u.file_id) rows
    then update_where (has_key u.entity_id u.file_id) (patch_entity u.update) rows
    else rows ++ new_row u ∷ []

abbrev pub save_rows : List KeyedUpdate → List EntityRow → List EntityRow
save_rows [] rows = rows
save_rows (u ∷ us) rows = save_rows us (save_entity u rows)

-- `save` of a list is one transaction: all the entities, or none.
unfoldable pub update_entities : List KeyedUpdate → Action Db Unit
update_entities us = attempt λ db.
    if all (λ u. entity_refers db (new_row u)) us
    then ok (tt, record db { entities = save_rows us db.entities })
    else err (Error.query_failed (some SqlState.foreign_key_violation))

unfoldable pub find_one_entity : Uuid → Uuid → Db → Option EntityRow
find_one_entity entity_id file_id db = find (has_key entity_id file_id) db.entities

-- The two lists of ids are looked up apart from one another.
unfoldable pub find_many_entities_by_ids : List FiledEntity → Db → Option (List EntityRow)
find_many_entities_by_ids entities db = some_unless_empty (
    filter
      (λ e.
        any (λ f. e.entity_id == f.entity.entity_id) entities
        && any (λ f. e.file_id == f.file_id) entities)
      db.entities)

-- The file of the entity exists and has one of the statuses.
abbrev pub joins_file : List Status → Db → EntityRow → Bool
joins_file statuses db e =
    any (λ f. f.file_id == e.file_id && any (status_eq f.status) statuses) db.files

abbrev pub is_in_changesets : List Uuid → EntityRow → Bool
is_in_changesets changeset_ids e = elim e.changeset_id [
  | none ↦ false
  | some c ↦ contains c changeset_ids
]

-- `DISTINCT ON`: one of the rows of each file.
abbrev pub distinct_ids : List Uuid → List Uuid
distinct_ids [] = []
distinct_ids (x ∷ xs) = if contains x xs then distinct_ids xs else x ∷ distinct_ids xs

unfoldable pub find_files_by_changesets : List Uuid → List Status → Db → List Uuid
find_files_by_changesets changeset_ids statuses db = distinct_ids (
    map (λ e. e.file_id)
      (filter (λ e. is_in_changesets changeset_ids e && joins_file statuses db e) db.entities))

-- A list of no ids restricts nothing.
unfoldable pub count_entities_by_ids : List KeyedUpdate → Db → ℕ
count_entities_by_ids [] db = length db.entities
count_entities_by_ids (id ∷ ids) db =
    count (λ e. any (λ u. has_key u.entity_id u.file_id e) (id ∷ ids)) db.entities
