-- ===== src/Tables/Schema.antt =====
-- Primary keys and foreign keys, and the statements that they can refuse.
use osm_sync_tracker.Prelude.{
  Bool, true, not, ◌&&◌, ◌||◌, Option, none, some, List, [], ◌∷◌, ◌++◌, any, all, ◌==◌,
  if◌then◌else◌,
}
use osm_sync_tracker.Common.Errors.{SqlState, Error}
use osm_sync_tracker.Common.Action.{Result, ok, err}
use osm_sync_tracker.Tables.Rows.{
  Uuid, SyncRow, FileRow, EntityRow, EntityHistoryRow, ChangesetRow, Db,
}

-- Two rows that a primary key cannot tell apart.
abbrev pub same_sync : SyncRow → SyncRow → Bool
same_sync a b = a.id == b.id

abbrev pub same_file : FileRow → FileRow → Bool
same_file a b = a.file_id == b.file_id

abbrev pub same_entity : EntityRow → EntityRow → Bool
same_entity a b = a.entity_id == b.entity_id && a.file_id == b.file_id

abbrev pub same_history : EntityHistoryRow → EntityHistoryRow → Bool
same_history a b = a.sync_id == b.sync_id && a.entity_id == b.entity_id && a.file_id == b.file_id

abbrev pub same_changeset : ChangesetRow → ChangesetRow → Bool
same_changeset a b = a.changeset_id == b.changeset_id

abbrev pub has_sync : Db → Uuid → Bool
has_sync db id = any (λ s. s.id == id) db.syncs

abbrev pub has_file : Db → Uuid → Bool
has_file db id = any (λ f. f.file_id == id) db.files

abbrev pub has_changeset : Db → Uuid → Bool
has_changeset db id = any (λ c. c.changeset_id == id) db.changesets

-- A nullable reference.
abbrev pub nullable : (Uuid → Bool) → Option Uuid → Bool
nullable has none = true
nullable has (some id) = has id

-- The references of a row. A sync may name itself.
abbrev pub sync_refers : Db → SyncRow → Bool
sync_refers db s = nullable (λ b. b == s.id || has_sync db b) s.base_sync_id

abbrev pub file_refers : Db → FileRow → Bool
file_refers db f = has_sync db f.sync_id

abbrev pub entity_refers : Db → EntityRow → Bool
entity_refers db e = has_file db e.file_id && nullable (has_changeset db) e.changeset_id

abbrev pub history_refers : Db → EntityHistoryRow → Bool
history_refers db h =
    has_sync db h.sync_id
    && nullable (has_sync db) h.base_sync_id
    && has_file db h.file_id
    && nullable (has_changeset db) h.changeset_id

module _ {A : Type 0} (same : A → A → Bool) where
  -- No new row has the key of a row of the table or of an earlier new row.
  abbrev pub admissible : List A → List A → Bool
  admissible [] table = true
  admissible (r ∷ rows) table = not (any (same r) table) && admissible rows (table ++ r ∷ [])

  -- `INSERT INTO … VALUES …`: all the rows, or none. Keys are checked row by row, references at
  -- the statement's end.
  abbrev pub insert_rows : (A → Bool) → List A → List A → Result (List A)
  insert_rows refers rows table =
      if admissible rows table
      then (if all refers rows
          then ok (table ++ rows)
          else err (Error.query_failed (some SqlState.foreign_key_violation)))
      else err (Error.query_failed (some SqlState.unique_violation))

  -- The primary key holds: no two rows of the table agree on it.
  abbrev pub distinct : List A → Bool
  distinct [] = true
  distinct (r ∷ rows) = not (any (same r) rows) && distinct rows
