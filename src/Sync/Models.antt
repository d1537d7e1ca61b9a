-- ===== src/Sync/Models.antt =====
-- The types of src/sync/models/sync.ts beside the sync itself, which is a row of its table. A
-- property that may be left out is an `Option`; one that may also be null is an `Option` of one.
use osm_sync_tracker.Prelude.{is_some, ◌||◌, ℕ, Bool, Option, List}
use osm_sync_tracker.Common.Enums.{Status, GeometryType}
use osm_sync_tracker.Tables.{Uuid, Date, Metadata, SyncRow}

pub record SyncUpdate : Type 0 where
  pub dump_date : Option Date
  pub start_date : Option Date
  pub end_date : Option (Option Date)
  pub status : Option Status
  pub layer_id : Option ℕ
  pub total_files : Option (Option ℕ)
  pub geometry_type : Option GeometryType
  pub base_sync_id : Option (Option Uuid)
  pub run_number : Option ℕ
  pub metadata : Option (Option Metadata)

-- Whether an update gives a column.
unfoldable pub gives_columns : SyncUpdate → Bool
gives_columns u =
    is_some u.dump_date
    || is_some u.start_date
    || is_some u.end_date
    || is_some u.status
    || is_some u.layer_id
    || is_some u.total_files
    || is_some u.geometry_type
    || is_some u.base_sync_id
    || is_some u.run_number
    || is_some u.metadata

pub record SyncWithReruns : Type 0 where
  pub sync : SyncRow
  pub reruns : List SyncRow

pub record CreateRerunRequest : Type 0 where
  pub sync : SyncRow
  pub should_rerun_not_synced : Bool

pub record SyncsFilter : Type 0 where
  pub layer_id : Option (List ℕ)
  pub status : Option (List Status)
  pub geometry_type : Option (List GeometryType)
  pub is_full : Option Bool
  pub is_rerun : Option Bool

-- `Partial<Sync>`, with the properties by which the program looks syncs up.
pub record PartialSync : Type 0 where
  pub layer_id : Option ℕ
  pub geometry_type : Option GeometryType
  pub is_full : Option Bool
  pub base_sync_id : Option Uuid
