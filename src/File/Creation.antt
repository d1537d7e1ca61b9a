-- ===== src/File/Creation.antt =====
-- What the creation of a file leaves in the table: `createFile` of src/file/models/fileManager.ts.
use osm_sync_tracker.File.Repository
use osm_sync_tracker.Common.Action.{ok}
use osm_sync_tracker.File.Models.{File, file_row}
use osm_sync_tracker.Tables.{Uuid, FileRow, Db, SyncRow, same_file}
use osm_sync_tracker.Prelude.{
  Option, ℕ, List, any, option_eq, ◌≡◌, some, ◌==◌, get_or, patch, false, Option-cases, true, find,
  inl, none, arith, ◌++◌, inr, ap, sym, ◌∷◌, ==→eq, refl, [], ◌∙◌,
}
use osm_sync_tracker.File.Repository.{find_one_file}
use osm_sync_tracker.File.Manager.{create_file, create_new_file, create_rerun_file, with_sync_id}
use osm_sync_tracker.Sync.Repository.{find_one_sync}

-- The file is stored in a sync, with the total of the request.
abbrev pub IsStored : Uuid → File → Db → Type 0
IsStored sync_id f db =
    (g : FileRow) × (find_one_file f.file_id db ≡ some g)
    × (g.sync_id ≡ sync_id)
    × (g.total_entities ≡ patch f.total_entities none)

option_eq→eq : (a b : Option ℕ) → option_eq ◌==◌ a b ≡ true → a ≡ b
option_eq→eq none none h = refl
option_eq→eq (some a) (some b) h = ap some (==→eq a b h)
option_eq→eq none (some b) h = absurd (ground (arith, h))
option_eq→eq (some a) none h = absurd (ground (arith, h))

find_snoc :
    (r : FileRow) (xs : List FileRow)
    → any (same_file r) xs ≡ false
    → find (λ x. x.file_id == r.file_id) (xs ++ r ∷ []) ≡ some r
find_snoc r [] h = ground arith
find_snoc r (x ∷ xs) h = ground (arith, find_snoc r xs)

insert_stores :
    (f : File) (db : Db)
    → (Repository.create_file f db).0 ≡ ok tt
    → find_one_file f.file_id (Repository.create_file f db).1 ≡ some (file_row f)
unfolding Repository.create_file find_one_file
insert_stores f db h = ground (arith, h, find_snoc (file_row f) db.files)

new_stores :
    (sync_id : Uuid) (f : File) (db : Db)
    → (create_new_file sync_id f db).0 ≡ ok tt
    → IsStored sync_id f (create_new_file sync_id f db).1
new_stores sync_id f db h = (
  file_row (with_sync_id sync_id f),
  ground (arith, h, insert_stores (with_sync_id sync_id f) db),
  refl,
  refl,
)

rerun_stores :
    (base : Uuid) (f : File) (db : Db)
    → (create_rerun_file base f db).0 ≡ ok tt
    → IsStored base f (create_rerun_file base f db).1
rerun_stores base f db h = elim (Option-cases (find_one_file f.file_id db)) [
  | inl missing ↦ (
    file_row (with_sync_id base f),
    ground (arith, h, missing, insert_stores (with_sync_id base f) db),
    refl,
    refl,
  )
  | inr (g, found) ↦ (
    g,
    ground (arith, h, found),
    ground (arith, h, found),
    sym (option_eq→eq (patch f.total_entities none) g.total_entities (ground (arith, h, found))),
  )
]

module _ (sync_id : Uuid) (f : File) (db : Db) (s : SyncRow)
    (found : find_one_sync sync_id db ≡ some s) where
  in_full_run : s.base_sync_id ≡ none → create_file sync_id f db ≡ create_new_file sync_id f db
  unfolding create_file
  in_full_run none_given = ground (arith, found, none_given)

  in_rerun :
      (base : Uuid)
      → s.base_sync_id ≡ some base
      → create_file sync_id f db ≡ create_rerun_file base f db
  unfolding create_file
  in_rerun base given = ground (arith, found, given)

-- A creation of a file that succeeds leaves the file stored with the total number of entities of the
-- request, in the sync of the request or, if that is a rerun, in its base sync: the file of a rerun is
-- the file of the base sync, whether it was there before or not.
pub create_file-IsStored :
    (sync_id : Uuid) (f : File) (db : Db) (s : SyncRow)
    → find_one_sync sync_id db ≡ some s
    → (create_file sync_id f db).0 ≡ ok tt
    → IsStored (get_or s.base_sync_id sync_id) f (create_file sync_id f db).1
create_file-IsStored sync_id f db s found h = elim (Option-cases s.base_sync_id) [
  | inl none_given ↦
      let same = in_full_run sync_id f db s found none_given in
      rw (none_given, same) (new_stores sync_id f db (ap (λ x. x.0) (sym same) ∙ h))
  | inr (base, given) ↦
      let same = in_rerun sync_id f db s found base given in
      rw (given, same) (rerun_stores base f db (ap (λ x. x.0) (sym same) ∙ h))
]
