-- ===== src/Entity/Models.antt =====
-- src/entity/models/entity.ts. A property that may be left out is an `Option`; one that may also be
-- null is an `Option` of one.
use osm_sync_tracker.Prelude.{Bool, is_some, ◌||◌, Option, none, some, String, patch}
use osm_sync_tracker.Common.Enums.{EntityStatus, ActionType}
use osm_sync_tracker.Tables.{Uuid, EntityRow}

pub record Entity : Type 0 where
  pub entity_id : Uuid
  pub file_id : Option Uuid
  pub changeset_id : Option (Option Uuid)
  pub status : EntityStatus
  pub action : Option ActionType
  pub fail_reason : Option (Option String)

pub record UpdateEntity : Type 0 where
  pub changeset_id : Option (Option Uuid)
  pub status : Option EntityStatus
  pub action : Option (Option ActionType)
  pub fail_reason : Option (Option String)

-- Whether an update gives a column.
unfoldable pub gives_columns : UpdateEntity → Bool
gives_columns u =
    is_some u.changeset_id || is_some u.status || is_some u.action || is_some u.fail_reason

-- An element of `UpdateEntities`.
pub record KeyedUpdate : Type 0 where
  pub entity_id : Uuid
  pub file_id : Uuid
  pub update : UpdateEntity

-- An entity in a file, as it is written to the table.
pub record FiledEntity : Type 0 where
  pub file_id : Uuid
  pub entity : Entity

-- The row that an `INSERT` writes: a column that is left out is null.
abbrev pub entity_row : FiledEntity → EntityRow
entity_row e = record {
  entity_id = e.entity.entity_id;
  file_id = e.file_id;
  changeset_id = patch e.entity.changeset_id none;
  status = e.entity.status;
  action = e.entity.action;
  fail_reason = patch e.entity.fail_reason none;
}

-- An entity as an element of `UpdateEntities`, as which `updateEntities` takes it too.
abbrev pub keyed_update : FiledEntity → KeyedUpdate
keyed_update e = record {
  entity_id = e.entity.entity_id;
  file_id = e.file_id;
  update = record {
    changeset_id = e.entity.changeset_id;
    status = some e.entity.status;
    action = some e.entity.action;
    fail_reason = e.entity.fail_reason;
  };
}
