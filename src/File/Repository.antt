-- ===== src/File/Repository.antt =====
-- src/file/DAL/fileRepository.ts.
use osm_sync_tracker.Prelude.{
  is_some, Bool, not, ◌&&◌, Option, none, some, List, [], ◌∷◌, map, filter, any, find, count, patch,
  update_where, ◌==◌, option_eq, if◌then◌else◌,
}
use osm_sync_tracker.Common.Enums.{Status, status_eq}
use osm_sync_tracker.Common.Errors.{Error}
use osm_sync_tracker.Common.Action.{Action, ok, err, attempt}
use osm_sync_tracker.Common.Db.{ReturningResult}
use osm_sync_tracker.Tables.{Uuid, Date, FileRow, Db, same_file, file_refers, insert_rows}
use osm_sync_tracker.Sync.Rerun.{closed_entities, close_file}
use osm_sync_tracker.File.Models.{File, FileUpdate, file_row}

unfoldable pub create_files : List File → Action Db Unit
create_files files = attempt λ db.
    elim (insert_rows same_file (file_refers db) (map file_row files) db.files) [
      | ok rows ↦ ok (tt, record db { files = rows })
      | err e ↦ err e
    ]

unfoldable pub create_file : File → Action Db Unit
create_file file = attempt λ db.
    elim (insert_rows same_file (file_refers db) (file_row file ∷ []) db.files) [
      | ok rows ↦ ok (tt, record db { files = rows })
      | err e ↦ err e
    ]

-- An update that gives no column is an error.
unfoldable pub update_file : Uuid → FileUpdate → Action Db Unit
update_file file_id update = attempt λ db.
    if not (is_some update.total_entities)
    then err Error.other_error
    else ok (
      tt,
      record db {
        files =
            update_where (λ f. f.file_id == file_id)
              (λ f. record f { total_entities = patch update.total_entities f.total_entities })
              db.files;
      },
    )

unfoldable pub find_one_file : Uuid → Db → Option FileRow
find_one_file file_id db = find (λ f. f.file_id == file_id) db.files

abbrev pub some_unless_empty {ℓ} : {A : Type ℓ} → List A → Option (List A)
some_unless_empty [] = none
some_unless_empty (x ∷ xs) = some (x ∷ xs)

unfoldable pub find_many_files_by_ids : List File → Db → Option (List FileRow)
find_many_files_by_ids files db =
    some_unless_empty (filter (λ f. any (λ g. f.file_id == g.file_id) files) db.files)

-- What `RETURNING` gives of a closed file.
pub record FileClosureIds : Type 0 where
  pub file_id : Uuid
  pub sync_id : Uuid

abbrev pub closure_ids : FileRow → FileClosureIds
closure_ids f = record { file_id = f.file_id; sync_id = f.sync_id }

-- The `WHERE` of the closure. The entities are counted in the file of the given id.
abbrev pub is_up_for_closure : Uuid → Db → FileRow → Bool
is_up_for_closure file_id db f =
    f.file_id == file_id
    && not (status_eq f.status Status.completed)
    && option_eq ◌==◌ f.total_entities (some (closed_entities file_id db))

unfoldable pub attempt_file_closure : Date → Uuid → Action Db (ReturningResult FileClosureIds)
attempt_file_closure now file_id db =
    let closed = is_up_for_closure file_id db in
    (
      ok (map closure_ids (filter closed db.files), count closed db.files),
      record db { files = update_where closed (close_file now) db.files },
    )
