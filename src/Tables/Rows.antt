-- ===== src/Tables/Rows.antt =====
-- The rows of src/sync/DAL/sync.ts, src/file/DAL/file.ts, src/entity/DAL/entity.ts,
-- src/entity/DAL/entityHistory.ts and src/changeset/DAL/changeset.ts. An identifier is a uuid or a
-- key that is only ever compared, and a date is a point on a time line: both are numbers.
use osm_sync_tracker.Prelude.{ℕ, Bool, Option, List, String}
use osm_sync_tracker.Common.Enums.{Status, ActionType, EntityStatus, GeometryType}

abbrev pub Uuid : Type 0
Uuid = ℕ

abbrev pub Date : Type 0
Date = ℕ

-- A JSON value, as `metadata` holds it.
mutual
  pub data Json : Type 0 where
    null : Json
    bool : Bool → Json
    num : ℕ → Json
    str : String → Json
    arr : JsonItems → Json
    obj : JsonFields → Json

  pub data JsonItems : Type 0 where
    nil : JsonItems
    cons : Json → JsonItems → JsonItems

  pub data JsonFields : Type 0 where
    end : JsonFields
    field : String → Json → JsonFields → JsonFields

-- `Record<string, any>`: the properties of an object, each name once.
abbrev pub Metadata : Type 0
Metadata = List (String × Json)

pub record SyncRow : Type 0 where
  pub id : Uuid
  pub dump_date : Date
  pub start_date : Date
  pub end_date : Option Date
  pub status : Status
  pub layer_id : ℕ
  pub is_full : Bool
  pub total_files : Option ℕ
  pub geometry_type : GeometryType
  pub base_sync_id : Option Uuid
  pub run_number : ℕ
  pub metadata : Option Metadata

pub record FileRow : Type 0 where
  pub file_id : Uuid
  pub sync_id : Uuid
  pub start_date : Date
  pub end_date : Option Date
  pub status : Status
  pub total_entities : Option ℕ

pub record EntityRow : Type 0 where
  pub entity_id : Uuid
  pub file_id : Uuid
  pub changeset_id : Option Uuid
  pub status : EntityStatus
  pub action : Option ActionType
  pub fail_reason : Option String

pub record EntityHistoryRow : Type 0 where
  pub sync_id : Uuid
  pub base_sync_id : Option Uuid
  pub entity_id : Uuid
  pub file_id : Uuid
  pub changeset_id : Option Uuid
  pub status : EntityStatus
  pub action : Option ActionType
  pub fail_reason : Option String

pub record ChangesetRow : Type 0 where
  pub changeset_id : Uuid
  pub osm_id : Option ℕ

-- The database: a table is the list of its rows.
pub record Db : Type 0 where
  pub syncs : List SyncRow
  pub files : List FileRow
  pub entities : List EntityRow
  pub history : List EntityHistoryRow
  pub changesets : List ChangesetRow
