-- ===== src/Invariant/Guards.antt =====
-- Which requests the checks of the managers (src/*/models) keep from the errors of the database.
use osm_sync_tracker.Prelude.{
  Bool-cases, Bool, true, false, not, Option, none, some, is_some, List, [], ◌∷◌, ◌≡◌, refl, arith,
  any, all, find, ◌==◌, ==→eq, ◌∙◌, Option-cases, inl, inr,
}
use osm_sync_tracker.Common.Action.{Action, ok, err}
use osm_sync_tracker.Common.Db.{Transactor}
use osm_sync_tracker.Common.Errors.{Error}
use osm_sync_tracker.Common.Lodash.{Lodash}
use osm_sync_tracker.Tables.{
  Uuid, SyncRow, FileRow, ChangesetRow, Db, has_sync, same_file, same_changeset, sync_refers,
}
use osm_sync_tracker.Tables.References.{IsReferring}
use osm_sync_tracker.Sync.Repository.{find_one_sync}
use osm_sync_tracker.Sync.Creation.{create_sync_lem}
use osm_sync_tracker.Sync.Manager.{create_sync}
use osm_sync_tracker.File.Models.{File, file_row}
use osm_sync_tracker.File.Bulk.{create_files_lem}
use osm_sync_tracker.File.Repository as Files
use osm_sync_tracker.File.Manager.{
  create_file, create_files, create_new_file, create_rerun_file, with_sync_id,
}
use osm_sync_tracker.Changeset.Models.{changeset_row, Changeset}
use osm_sync_tracker.Changeset.Repository as Changesets
use osm_sync_tracker.Changeset.Manager.{create_changeset}
use osm_sync_tracker.Http.Reply.{Reply, StatusCode}
use osm_sync_tracker.Http.Routes.{Request, serve}
use osm_sync_tracker.Http.Syncs as SyncRoutes
use osm_sync_tracker.Http.Files as FileRoutes
use osm_sync_tracker.Http.Changesets as ChangesetRoutes
use osm_sync_tracker.Invariant.Reach.{Reach, Reach-IsReferring}

-- The error is one of the database.
abbrev pub is_of_database : Error → Bool
is_of_database (Error.query_failed code) = true
is_of_database _ = false

-- A call that ends in no error of the database.
abbrev IsGuarded : {A : Type 0} → Action Db A → Db → Type 0
IsGuarded m db = (e : Error) → (m db).0 ≡ err e → is_of_database e ≡ false

module _ {A : Type 0} (p : A → Bool) where
  any-find-none : (xs : List A) → find p xs ≡ none → any p xs ≡ false
  any-find-none [] h = refl
  any-find-none (x ∷ xs) h = ground (arith, any-find-none xs)

  any-find-some : (xs : List A) (a : A) → find p xs ≡ some a → any p xs ≡ true
  any-find-some [] a h = cc
  any-find-some (x ∷ xs) a h = ground (arith, any-find-some xs a)

  all-find-some :
      (q : A → Bool) (xs : List A) (a : A)
      → find p xs ≡ some a
      → all q xs ≡ true
      → (p a ≡ true) × (q a ≡ true)
  all-find-some q [] a h k = absurd (ground (arith, h))
  all-find-some q (x ∷ xs) a h k = ground (arith, h, k, all-find-some q xs a)

same_file-swap :
    (r : FileRow) (xs : List FileRow) → any (same_file r) xs ≡ any (λ x. x.file_id == r.file_id) xs
same_file-swap r [] = refl
same_file-swap r (x ∷ xs) = ground (arith, same_file-swap r xs)

same_changeset-swap :
    (r : ChangesetRow) (xs : List ChangesetRow)
    → any (same_changeset r) xs ≡ any (λ x. x.changeset_id == r.changeset_id) xs
same_changeset-swap r [] = refl
same_changeset-swap r (x ∷ xs) = ground (arith, same_changeset-swap r xs)

-- A file whose id is free is inserted into a sync that is there.
insert_file-guarded :
    (f : File) (db : Db)
    → Files.find_one_file f.file_id db ≡ none
    → has_sync db f.sync_id ≡ true
    → (Files.create_file f db).0 ≡ ok tt
unfolding Files.create_file Files.find_one_file
insert_file-guarded f db free there = ground (
  arith,
  there,
  same_file-swap (file_row f) db.files,
  any-find-none (λ x. x.file_id == f.file_id) db.files free,
)

found_sync :
    (id : Uuid) (s : SyncRow) (db : Db) → find_one_sync id db ≡ some s → has_sync db id ≡ true
unfolding find_one_sync
found_sync id s db h = any-find-some (λ x. x.id == id) db.syncs s h

-- The base sync of a stored sync is there.
base_there :
    (id base : Uuid) (s : SyncRow) (db : Db)
    → IsReferring db
    → find_one_sync id db ≡ some s
    → s.base_sync_id ≡ some base
    → has_sync db base ≡ true
unfolding find_one_sync
base_there id base s db k h given =
    let (here, refers) = all-find-some (λ x. x.id == id) (sync_refers db) db.syncs s h k.syncs in
    elim (Bool-cases (base == s.id)) [
      | inl itself ↦
          rw (==→eq base s.id itself ∙ ==→eq s.id id here)
            (any-find-some (λ x. x.id == id) db.syncs s h)
      | inr other ↦ ground (arith, given, refers, other)
    ]

create_new_file-IsGuarded :
    (id : Uuid) (f : File) (db : Db) → has_sync db id ≡ true → IsGuarded (create_new_file id f) db
create_new_file-IsGuarded id f db there e h =
    elim (Option-cases (Files.find_one_file f.file_id db)) [
      | inl free ↦ ground (arith, h, free, insert_file-guarded (with_sync_id id f) db free there)
      | inr (g, found) ↦ ground (arith, h, found)
    ]

create_rerun_file-IsGuarded :
    (base : Uuid) (f : File) (db : Db)
    → has_sync db base ≡ true
    → IsGuarded (create_rerun_file base f) db
create_rerun_file-IsGuarded base f db there e h =
    elim (Option-cases (Files.find_one_file f.file_id db)) [
      | inl free ↦ ground (arith, h, free, insert_file-guarded (with_sync_id base f) db free there)
      | inr (g, found) ↦ ground (arith, h, found)
    ]

create_file-IsGuarded :
    (id : Uuid) (f : File) (db : Db) → IsReferring db → IsGuarded (create_file id f) db
unfolding create_file
create_file-IsGuarded id f db k e h = elim (Option-cases (find_one_sync id db)) [
  | inl missing ↦ ground (arith, h, missing)
  | inr (s, found) ↦ elim (Option-cases s.base_sync_id) [
    | inl own ↦
        ground
          (arith, h, found, own, create_new_file-IsGuarded id f db (found_sync id s db found) e)
    | inr (base, given) ↦ ground (
      arith,
      h,
      found,
      given,
      create_rerun_file-IsGuarded base f db (base_there id base s db k found given) e,
    )
  ]
]

create_changeset-IsGuarded : (c : Changeset) (db : Db) → IsGuarded (create_changeset c) db
unfolding create_changeset Changesets.create_changeset Changesets.find_one_changeset
create_changeset-IsGuarded c db e h = ground (
  arith,
  h,
  same_changeset-swap (changeset_row c) db.changesets,
  any-find-none (λ x. x.changeset_id == c.changeset_id) db.changesets,
)

create_files-IsGuarded :
    (l : Lodash) (id : Uuid) (fs : List File) (db : Db) → IsGuarded (create_files l id fs) db
create_files-IsGuarded l id fs db e h = ground (arith, h, create_files_lem l id fs db)

create_sync-IsGuarded :
    (s : SyncRow) (db : Db) → s.base_sync_id ≡ none → IsGuarded (create_sync s) db
create_sync-IsGuarded s db own e h = ground (arith, h, own, create_sync_lem s db)

-- A request that creates a changeset, files, or a sync that names no base sync.
abbrev pub is_creation : Request → Bool
is_creation (Request.post_sync s) = not (is_some s.base_sync_id)
is_creation (Request.post_file id f) = true
is_creation (Request.post_files id fs) = true
is_creation (Request.post_changeset c) = true
is_creation _ = false

module _ (t : Transactor) (l : Lodash) where
  serve_creation_in :
      (r : Request) (db : Db) (e : Error) (status : Option StatusCode)
      → IsReferring db
      → is_creation r ≡ true
      → (serve t l r db).0 ≡ Reply.next e status
      → is_of_database e ≡ false
  unfolding serve SyncRoutes.post_sync FileRoutes.post_file FileRoutes.post_files
      ChangesetRoutes.post_changeset
  serve_creation_in (Request.post_sync s) db e status k c h =
      ground (arith, h, create_sync-IsGuarded s db (ground (arith, c)) e)
  serve_creation_in (Request.post_file id f) db e status k c h =
      ground (arith, h, create_file-IsGuarded id f db k e)
  serve_creation_in (Request.post_files id fs) db e status k c h =
      ground (arith, h, create_files-IsGuarded l id fs db e)
  serve_creation_in (Request.post_changeset x) db e status k c h =
      ground (arith, h, create_changeset-IsGuarded x db e)
  serve_creation_in (Request.get_syncs x) db e status k c h = absurd (ground (arith, c))
  serve_creation_in (Request.get_latest_sync n g) db e status k c h = absurd (ground (arith, c))
  serve_creation_in (Request.patch_sync id u) db e status k c h = absurd (ground (arith, c))
  serve_creation_in (Request.patch_file id x u) db e status k c h = absurd (ground (arith, c))
  serve_creation_in (Request.rerun_sync now id x start b) db e status k c h =
      absurd (ground (arith, c))
  serve_creation_in (Request.post_entity id x) db e status k c h = absurd (ground (arith, c))
  serve_creation_in (Request.post_entities id xs) db e status k c h = absurd (ground (arith, c))
  serve_creation_in (Request.patch_entity id x u) db e status k c h = absurd (ground (arith, c))
  serve_creation_in (Request.patch_entities us) db e status k c h = absurd (ground (arith, c))
  serve_creation_in (Request.get_changeset id) db e status k c h = absurd (ground (arith, c))
  serve_creation_in (Request.patch_changeset id u) db e status k c h = absurd (ground (arith, c))
  serve_creation_in (Request.patch_changeset_entities id) db e status k c h =
      absurd (ground (arith, c))

  -- Let requests and closure jobs have led from a database in which every reference names a row to
  -- the one that is there now. Then a request that creates a changeset, a file, files or a sync that
  -- names no base sync ends in no error of the database: what the keys of the tables would refuse
  -- the checks of the program have refused before, by errors of its own.
  pub serve_creation :
      {first db : Db} (r : Request) (e : Error) (status : Option StatusCode)
      → IsReferring first
      → Reach t l first db
      → is_creation r ≡ true
      → (serve t l r db).0 ≡ Reply.next e status
      → is_of_database e ≡ false
  serve_creation {first} {db} r e status k led c h =
      serve_creation_in r db e status (Reach-IsReferring t l k led) c h
