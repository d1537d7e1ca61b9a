-- ===== src/File/Bulk.antt =====
-- The bulk creation of files: `createFiles` of src/file/models/fileManager.ts.
use osm_sync_tracker.Prelude.{
  Bool, true, false, not, Option, none, some, is_some, List, [], ◌∷◌, ◌++◌, ◌≡◌, refl, arith, map,
  filter, any, all, ◌==◌, if◌then◌else◌, any-append,
}
use osm_sync_tracker.Common.Action.{ok, err}
use osm_sync_tracker.Common.Errors.{Error, FileError, SyncError, file_error, sync_error}
use osm_sync_tracker.Common.Lodash.{Lodash}
use osm_sync_tracker.Common.Uniq.{uniq_by-test}
use osm_sync_tracker.Tables.{
  Uuid, FileRow, Db, has_sync, same_file, admissible, distinct, file_refers,
}
use osm_sync_tracker.Sync.Repository.{find_one_sync}
use osm_sync_tracker.File.Models.{File, file_row}
use osm_sync_tracker.File.Repository.{some_unless_empty, find_many_files_by_ids}
use osm_sync_tracker.File.Repository
use osm_sync_tracker.File.Manager.{create_files, with_sync_id}
use osm_sync_tracker.Store.Lookup.{any-is_some}

abbrev pub share_id : File → File → Bool
share_id f g = f.file_id == g.file_id

abbrev pub is_taken_by : List File → FileRow → Bool
is_taken_by files f = any (λ g. f.file_id == g.file_id) files

-- The error that a bulk creation is refused with.
abbrev pub refusal : Uuid → List File → Db → Option Error
refusal sync_id files db =
    if not (distinct share_id files)
    then some (file_error FileError.duplicate_files)
    else (if not (has_sync db sync_id)
        then some (sync_error SyncError.sync_not_found)
        else (if any (is_taken_by files) db.files
            then some (file_error FileError.file_already_exists)
            else none))

abbrev pub rows_in : Uuid → List File → List FileRow
rows_in sync_id files = map file_row (map (with_sync_id sync_id) files)

is_some-unless_empty :
    {A : Type 0} (p : A → Bool) (xs : List A) → is_some (some_unless_empty (filter p xs)) ≡ any p xs
is_some-unless_empty p [] = refl
is_some-unless_empty p (x ∷ xs) = ground (arith, is_some-unless_empty p xs)

-- What the checks let through the keys of the table admit.
untaken-first :
    (sync_id : Uuid) (f : File) (files : List File) (table : List FileRow)
    → any (is_taken_by (f ∷ files)) table ≡ false
    → any (same_file (file_row (with_sync_id sync_id f))) table ≡ false
untaken-first sync_id f files [] h = refl
untaken-first sync_id f files (r ∷ table) h = ground (arith, untaken-first sync_id f files table)

untaken-rest :
    (f : File) (files : List File) (table : List FileRow)
    → any (is_taken_by (f ∷ files)) table ≡ false
    → any (is_taken_by files) table ≡ false
untaken-rest f files [] h = refl
untaken-rest f files (r ∷ table) h = ground (arith, untaken-rest f files table)

untaken-admissible :
    (sync_id : Uuid) (files : List File) (table : List FileRow)
    → distinct share_id files ≡ true
    → any (is_taken_by files) table ≡ false
    → admissible same_file (rows_in sync_id files) table ≡ true
untaken-admissible sync_id [] table unique free = refl
untaken-admissible sync_id (f ∷ files) table unique free =
    let row = file_row (with_sync_id sync_id f) in
    ground (
      arith,
      unique,
      untaken-first sync_id f files table free,
      untaken-rest f files table free,
      any-append (is_taken_by files) table (row ∷ []),
      untaken-admissible sync_id files (table ++ row ∷ []),
    )

rows_in-refer :
    (sync_id : Uuid) (files : List File) (db : Db)
    → has_sync db sync_id ≡ true
    → all (file_refers db) (rows_in sync_id files) ≡ true
rows_in-refer sync_id [] db h = refl
rows_in-refer sync_id (f ∷ files) db h = ground (arith, h, rows_in-refer sync_id files db h)

-- A bulk creation of files is refused if two of them share an id, then if the sync is missing, and
-- then if an id is taken, and then leaves the database as it was. In every other case it succeeds,
-- and adds all the files in the sync of the request: the keys of the table refuse nothing that the
-- checks let through.
pub create_files_lem :
    (lodash : Lodash) (sync_id : Uuid) (files : List File) (db : Db)
    → create_files lodash sync_id files db ≡ elim (refusal sync_id files db) [
      | some e ↦ (err e, db)
      | none ↦ (ok tt, record db { files = db.files ++ rows_in sync_id files })
    ]
unfolding create_files Repository.create_files find_many_files_by_ids find_one_sync
create_files_lem lodash sync_id files db = ground (
  arith,
  uniq_by-test lodash (λ (f : File). f.file_id) files,
  any-is_some (λ s. s.id == sync_id) db.syncs,
  is_some-unless_empty (is_taken_by files) db.files,
  untaken-admissible sync_id files db.files,
  rows_in-refer sync_id files db,
)
