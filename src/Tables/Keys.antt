-- ===== src/Tables/Keys.antt =====
-- The primary keys, as a condition on a database.
use osm_sync_tracker.Prelude.{true, ◌≡◌}
use osm_sync_tracker.Tables.Rows.{Db}
use osm_sync_tracker.Tables.Schema.{
  same_sync, same_file, same_entity, same_history, same_changeset, distinct,
}

-- No table holds two rows of one key.
pub record IsKeyed (db : Db) : Type 0 where
  pub syncs : distinct same_sync db.syncs ≡ true
  pub files : distinct same_file db.files ≡ true
  pub entities : distinct same_entity db.entities ≡ true
  pub history : distinct same_history db.history ≡ true
  pub changesets : distinct same_changeset db.changesets ≡ true
