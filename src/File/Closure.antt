-- ===== src/File/Closure.antt =====
-- What the closure of a file does: `attemptFileClosure` of src/file/DAL/fileRepository.ts.
use osm_sync_tracker.Prelude.{
  ℕ, Bool, true, false, ◌&&◌, none, some, List, [], ◌∷◌, ◌≡◌, ◌≢◌, refl, arith, all, any,
  filter-none, count-none, update_where-none, any-update_where, count, filter, find, update_where,
  ◌==◌, if◌then◌else◌, count-eq→all, not, option_eq, all→count-eq, Bool-cases,
  count-eq-length-filter, any-find,
}
use osm_sync_tracker.Common.Enums.{Status, status_eq}
use osm_sync_tracker.Common.Action.{ok}
use osm_sync_tracker.Tables.{Uuid, Date, FileRow, EntityRow, Db, same_file, distinct}
use osm_sync_tracker.Tables.Keys.{IsKeyed}
use osm_sync_tracker.Sync.Rerun.{closed_entities, close_file, is_closed_entity}
use osm_sync_tracker.File.Repository.{
  attempt_file_closure, find_one_file, is_up_for_closure, closure_ids,
}

-- The number of entities in a file.
abbrev pub entities_in : Uuid → Db → ℕ
entities_in file_id db = count (λ e. e.file_id == file_id) db.entities

-- Every entity of the file is completed or not synced.
abbrev pub all_closed : Uuid → Db → Bool
all_closed file_id db =
    all (λ e. if e.file_id == file_id then is_closed_entity e else true) db.entities

-- An attempt where no file is up for closure finds nothing and changes nothing.
attempt_file_closure-none :
    (now : Date) (file_id : Uuid) (db : Db)
    → any (is_up_for_closure file_id db) db.files ≡ false
    → attempt_file_closure now file_id db ≡ (ok ([], 0), db)
unfolding attempt_file_closure
attempt_file_closure-none now file_id db h = rw (
  filter-none (is_up_for_closure file_id db) db.files h,
  count-none (is_up_for_closure file_id db) db.files h,
  update_where-none (is_up_for_closure file_id db) (close_file now) db.files h,
)

missing_not_up :
    (file_id : Uuid) (db : Db) (fs : List FileRow)
    → any (λ f. f.file_id == file_id) fs ≡ false
    → any (is_up_for_closure file_id db) fs ≡ false
missing_not_up file_id db [] h = refl
missing_not_up file_id db (f ∷ fs) h = ground (arith, missing_not_up file_id db fs)

-- A file that is not there is not closed.
pub attempt_file_closure-missing :
    (now : Date) (file_id : Uuid) (db : Db)
    → find_one_file file_id db ≡ none
    → attempt_file_closure now file_id db ≡ (ok ([], 0), db)
unfolding find_one_file
attempt_file_closure-missing now file_id db h =
    attempt_file_closure-none now file_id db
      (missing_not_up file_id db db.files (any-find (λ f. f.file_id == file_id) db.files h))

again_not_up :
    (now : Date) (file_id : Uuid) (db : Db)
    → let after = (attempt_file_closure now file_id db).1 in
      any (is_up_for_closure file_id after) after.files ≡ false
unfolding attempt_file_closure
again_not_up now file_id db =
    let closed = is_up_for_closure file_id db in
    let after = record db { files = update_where closed (close_file now) db.files } in
    any-update_where closed (is_up_for_closure file_id after) (close_file now) (λ x h. ground arith)
      (λ x h. h) db.files

-- A second attempt to close a file, at any later time, reports nothing closed and leaves the database
-- as the first attempt left it.
pub attempt_file_closure_again :
    (now later : Date) (file_id : Uuid) (db : Db)
    → let after = (attempt_file_closure now file_id db).1 in
      attempt_file_closure later file_id after ≡ (ok ([], 0), after)
attempt_file_closure_again now later file_id db =
    attempt_file_closure-none later file_id (attempt_file_closure now file_id db).1
      (again_not_up now file_id db)

module _ (file_id : Uuid) where
  no_other :
      (f : FileRow) (fs : List FileRow)
      → (f.file_id == file_id) ≡ true
      → any (same_file f) fs ≡ false
      → any (λ g. g.file_id == file_id) fs ≡ false
  no_other f [] e h = refl
  no_other f (g ∷ fs) e h = ground (arith, no_other f fs e)

  module _ (extra : FileRow → Bool) where
    none_passes :
        (fs : List FileRow)
        → any (λ g. g.file_id == file_id) fs ≡ false
        → any (λ g. g.file_id == file_id && extra g) fs ≡ false
    none_passes [] h = refl
    none_passes (g ∷ fs) h = ground (arith, none_passes fs)

    -- Under the primary key, the rows of an id that pass a test are the found row or none.
    filter-found :
        (fs : List FileRow)
        → distinct same_file fs ≡ true
        → filter (λ g. g.file_id == file_id && extra g) fs
          ≡ elim (find (λ g. g.file_id == file_id) fs) [
            | none ↦ []
            | some f ↦ if extra f then f ∷ [] else []
          ]
    filter-found [] h = refl
    filter-found (g ∷ fs) h = ground (
      arith,
      filter-found fs,
      filter-none (λ x. x.file_id == file_id && extra x) fs,
      none_passes fs,
      no_other g fs,
    )

    update_where-found :
        (change : FileRow → FileRow) (fs : List FileRow)
        → distinct same_file fs ≡ true
        → update_where (λ g. g.file_id == file_id && extra g) change fs
          ≡ elim (find (λ g. g.file_id == file_id) fs) [
            | none ↦ fs
            | some f ↦ if extra f then update_where (λ g. g.file_id == file_id) change fs else fs
          ]
    update_where-found change [] h = refl
    update_where-found change (g ∷ fs) h = ground (
      arith,
      update_where-found change fs,
      update_where-none (λ x. x.file_id == file_id && extra x) change fs,
      update_where-none (λ x. x.file_id == file_id) change fs,
      none_passes fs,
      no_other g fs,
    )

-- The entities of the file are all closed exactly if as many are closed as there are.
pub all_closed-eq :
    (file_id : Uuid) (db : Db)
    → all_closed file_id db ≡ (closed_entities file_id db == entities_in file_id db)
all_closed-eq file_id db =
    let here = λ (e : EntityRow). e.file_id == file_id in
    ground (
      arith,
      count-eq→all here is_closed_entity db.entities,
      all→count-eq here is_closed_entity db.entities,
      Bool-cases (all_closed file_id db),
    )

-- Let the primary keys hold, and let a file that is not completed state as its total the number of its
-- entities in the table. If each of them is completed or not synced, the attempt to close the file
-- reports its id with that of its sync, and sets the status and the end date of this file alone;
-- otherwise it reports nothing and changes nothing.
pub attempt_file_closure_lem :
    (now : Date) (file_id : Uuid) (db : Db) (f : FileRow)
    → IsKeyed db
    → find_one_file file_id db ≡ some f
    → f.status ≢ Status.completed
    → f.total_entities ≡ some (entities_in file_id db)
    → attempt_file_closure now file_id db ≡ (
        if all_closed file_id db
        then (
          ok (closure_ids f ∷ [], 1),
          record db { files = update_where (λ g. g.file_id == file_id) (close_file now) db.files },
        )
        else (ok ([], 0), db))
unfolding attempt_file_closure find_one_file
attempt_file_closure_lem now file_id db f k found open_file total =
    let extra = λ (g : FileRow).
      not (status_eq g.status Status.completed)
      && option_eq ◌==◌ g.total_entities (some (closed_entities file_id db)) in
    let filtered = filter-found file_id extra db.files k.files in
    let updated = update_where-found file_id extra (close_file now) db.files k.files in
    let counted = count-eq-length-filter (is_up_for_closure file_id db) db.files in
    ground (arith, all_closed-eq file_id db, filtered, updated, counted, found)
