-- ===== src/File/Models.antt =====
-- src/file/models/file.ts. A property that may be left out is an `Option`; one that may also be null
-- is an `Option` of one.
use osm_sync_tracker.Prelude.{ℕ, Option, none, patch}
use osm_sync_tracker.Common.Enums.{Status}
use osm_sync_tracker.Tables.{Uuid, Date, FileRow}

pub record File : Type 0 where
  pub file_id : Uuid
  pub sync_id : Uuid
  pub total_entities : Option (Option ℕ)
  pub start_date : Date
  pub end_date : Option (Option Date)
  pub status : Status

pub record FileUpdate : Type 0 where
  pub total_entities : Option (Option ℕ)

-- The row that an `INSERT` of the file writes: a column that is left out is null.
abbrev pub file_row : File → FileRow
file_row f = record {
  file_id = f.file_id;
  sync_id = f.sync_id;
  start_date = f.start_date;
  end_date = patch f.end_date none;
  status = f.status;
  total_entities = patch f.total_entities none;
}
