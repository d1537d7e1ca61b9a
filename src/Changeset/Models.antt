-- ===== src/Changeset/Models.antt =====
-- src/changeset/models/changeset.ts. A property that may be left out is an `Option`; one that may
-- also be null is an `Option` of one.
use osm_sync_tracker.Prelude.{ℕ, Option, none, patch}
use osm_sync_tracker.Tables.{Uuid, ChangesetRow}

pub record Changeset : Type 0 where
  pub changeset_id : Uuid
  pub osm_id : Option (Option ℕ)

pub record UpdateChangeset : Type 0 where
  pub osm_id : Option (Option ℕ)

abbrev pub changeset_row : Changeset → ChangesetRow
changeset_row c = record { changeset_id = c.changeset_id; osm_id = patch c.osm_id none }
