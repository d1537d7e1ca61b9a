-- ===== src/Http/Statuses.antt =====
-- Which errors the controllers (src/*/controllers) give a status.
use osm_sync_tracker.Common.Errors.{
  FileError, Error, sync_error, file_error, entity_error, changeset_error,
}
use osm_sync_tracker.Http.Syncs
use osm_sync_tracker.Http.Files
use osm_sync_tracker.Http.Entities
use osm_sync_tracker.Http.Changesets
use osm_sync_tracker.File.Manager as FileManager
use osm_sync_tracker.Entity.Manager as EntityManager
use osm_sync_tracker.Sync.Manager as SyncManager
use osm_sync_tracker.Changeset.Manager as ChangesetManager
use osm_sync_tracker.Http.Routes.{Request, serve}
use osm_sync_tracker.Http.Reply.{Reply, StatusCode}
use osm_sync_tracker.Common.Lodash.{Lodash}
use osm_sync_tracker.Common.Db.{Transactor, rename_failure, IsolationLevel}
use osm_sync_tracker.Sync.Models.{SyncUpdate, CreateRerunRequest}
use osm_sync_tracker.Changeset.Models.{Changeset}
use osm_sync_tracker.File.Models.{File}
use osm_sync_tracker.Entity.Models.{KeyedUpdate, FiledEntity, UpdateEntity, keyed_update}
use osm_sync_tracker.Tables.{Db, SyncRow, Uuid, Date, EntityRow, FileRow}
use osm_sync_tracker.Prelude.{
  Bool, true, false, List, ◌≡◌, arith, Option, some, none, ◌⊎◌, refl, is_some, ◌&&◌, not, map, ◌∷◌,
  [], ◌+◌, Option-cases, inl, length, inr, ◌==◌,
}
use osm_sync_tracker.Common.Action.{Action, err}
use osm_sync_tracker.Sync.Repository as SyncRepository
use osm_sync_tracker.Sync.Rerun
use osm_sync_tracker.File.Repository as FileRepository
use osm_sync_tracker.Entity.Repository as EntityRepository
use osm_sync_tracker.Changeset.Repository as ChangesetRepository

-- The error classes of the program itself: src/common/errors.ts and src/*/models/errors.ts.
abbrev pub is_own : Error → Bool
is_own (sync_error e) = true
is_own (file_error e) = true
is_own (entity_error e) = true
is_own (changeset_error e) = true
is_own Error.transaction_failure = true
is_own Error.exceeded_number_of_retries = true
is_own _ = false

abbrev is_transaction_failed : Error → Bool
is_transaction_failed Error.transaction_failure = true
is_transaction_failed _ = false

abbrev ThrowsNoOwn : {A : Type 0} → Action Db A → Type 0
ThrowsNoOwn m = (db : Db) (e : Error) → (m db).0 ≡ err e → is_own e ≡ false

insert_sync-ThrowsNoOwn : (s : SyncRow) → ThrowsNoOwn (SyncRepository.create_sync s)
unfolding SyncRepository.create_sync
insert_sync-ThrowsNoOwn s db e h = ground arith

write_sync-ThrowsNoOwn :
    (id : Uuid) (u : SyncUpdate) → ThrowsNoOwn (SyncRepository.update_sync id u)
unfolding SyncRepository.update_sync
write_sync-ThrowsNoOwn id u db e h = ground arith

insert_file-ThrowsNoOwn : (f : File) → ThrowsNoOwn (FileRepository.create_file f)
unfolding FileRepository.create_file
insert_file-ThrowsNoOwn f db e h = ground arith

insert_files-ThrowsNoOwn : (fs : List File) → ThrowsNoOwn (FileRepository.create_files fs)
unfolding FileRepository.create_files
insert_files-ThrowsNoOwn fs db e h = ground arith

insert_entities-ThrowsNoOwn :
    (es : List FiledEntity) → ThrowsNoOwn (EntityRepository.create_entities es)
unfolding EntityRepository.create_entities
insert_entities-ThrowsNoOwn es db e h = ground arith

write_entity-ThrowsNoOwn :
    (id f : Uuid) (u : UpdateEntity) → ThrowsNoOwn (EntityRepository.update_entity id f u)
unfolding EntityRepository.update_entity
write_entity-ThrowsNoOwn id f u db e h = ground arith

write_entities-ThrowsNoOwn :
    (us : List KeyedUpdate) → ThrowsNoOwn (EntityRepository.update_entities us)
unfolding EntityRepository.update_entities
write_entities-ThrowsNoOwn us db e h = ground arith

insert_changeset-ThrowsNoOwn :
    (c : Changeset) → ThrowsNoOwn (ChangesetRepository.create_changeset c)
unfolding ChangesetRepository.create_changeset
insert_changeset-ThrowsNoOwn c db e h = ground arith

history-ThrowsNoOwn :
    (base id : Uuid) (b : Option Uuid) → ThrowsNoOwn (Rerun.create_entity_history base id b)
unfolding Rerun.create_entity_history
history-ThrowsNoOwn base id b db e h = ground arith

prepare_rerun-ThrowsNoOwn :
    (now : Date) (base : Uuid) (b : Bool) (s : SyncRow)
    → ThrowsNoOwn (Rerun.prepare_rerun now base b s)
unfolding Rerun.prepare_rerun
prepare_rerun-ThrowsNoOwn now base b s db e h =
    grind (arith, history-ThrowsNoOwn, insert_sync-ThrowsNoOwn)

rerun_steps-ThrowsNoOwn :
    (now : Date) (base : Uuid) (b : Bool) (s : SyncRow)
    → ThrowsNoOwn (Rerun.rerun_steps now base b s)
unfolding Rerun.rerun_steps Rerun.try_closing_sync Rerun.delete_empty_files
rerun_steps-ThrowsNoOwn now base b s db e h =
    let d1 = (Rerun.delete_empty_files base db).1 in
    let d2 = (Rerun.try_closing_sync now base d1).1 in
    ground (
      arith,
      prepare_rerun-ThrowsNoOwn now base b s d1 e,
      prepare_rerun-ThrowsNoOwn now base b s d2 e,
    )

rerun_body-ThrowsNoOwn :
    (now : Date) (b : Bool) (s : SyncRow) (db : Db) (e : Error) (base : Option Uuid)
    → s.base_sync_id ≡ base
    → (Rerun.rerun_body now b s db).0 ≡ err e
    → is_own e ≡ false
unfolding Rerun.rerun_body
rerun_body-ThrowsNoOwn now b s db e none given h = ground (arith, insert_sync-ThrowsNoOwn s db e)
rerun_body-ThrowsNoOwn now b s db e (some base) given h =
    ground (arith, rerun_steps-ThrowsNoOwn now base b s db e)

-- A transaction fails by an error of its callback, or by one that is not the program's own.
pub record IsForeign (t : Transactor) : Type 1 where
  pub fails :
      (A : Type 0) (level : IsolationLevel) (m : Action Db A) (db : Db) (e : Error)
      → (t.run level m db).0 ≡ err e
      → ((m db).0 ≡ err e) ⊎ (is_own e ≡ false)

module _ (t : Transactor) (foreign : IsForeign t) where
  rerun_run-ThrowsNoOwn :
      (now : Date) (b : Bool) (s : SyncRow)
      → ThrowsNoOwn (t.run IsolationLevel.serializable (Rerun.rerun_body now b s))
  rerun_run-ThrowsNoOwn now b s db e h = ground (
    arith,
    foreign.fails Bool IsolationLevel.serializable (Rerun.rerun_body now b s) db e h,
    rerun_body-ThrowsNoOwn now b s db e s.base_sync_id refl,
  )

  -- A rerun is renamed to a failed transaction, or fails by an error that is not the program's own.
  create_rerun-Throws :
      (now : Date) (r : CreateRerunRequest) (db : Db) (e : Error)
      → (Rerun.create_rerun t now r db).0 ≡ err e
      → (e ≡ Error.transaction_failure) ⊎ (is_own e ≡ false)
  unfolding Rerun.create_rerun rename_failure
  create_rerun-Throws now r db e h =
      grind (arith, rerun_run-ThrowsNoOwn now r.should_rerun_not_synced r.sync db)

  rerun_found_sync_status :
      (now : Date) (id : Uuid) (start : Date) (b : Option Bool) (sync : SyncRow)
      (reruns : List SyncRow) (db : Db) (e : Error)
      → (SyncManager.rerun_found_sync t now id start b
          (record { sync = sync; reruns = reruns })
          db).0
        ≡ err e
      → is_some (Syncs.if_rerun_refused e) ≡ (is_own e && not (is_transaction_failed e))
  unfolding SyncManager.rerun_found_sync
  rerun_found_sync_status now id start b sync [] db e h =
      ground (arith, create_rerun-Throws now (SyncManager.rerun_request sync id start b 1) db e)
  rerun_found_sync_status now id start b sync (r ∷ rs) db e h = ground (
    arith,
    create_rerun-Throws now (SyncManager.rerun_request sync id start b (r.run_number + 1)) db e,
  )

module _ (l : Lodash) where
  write_entities_status :
      (b : Bool) (es : List FiledEntity) (o : Option (List EntityRow)) (db : Db) (e : Error)
      → (EntityManager.write_entities l b es o db).0 ≡ err e
      → is_some (Entities.if_entities_refused e) ≡ is_own e
  write_entities_status false es o db e h = ground (arith, insert_entities-ThrowsNoOwn es db e)
  write_entities_status true es none db e h =
      ground (arith, write_entities-ThrowsNoOwn (map keyed_update es) db e)
  write_entities_status true es (some rows) db e h = ground (
    arith,
    write_entities-ThrowsNoOwn (map keyed_update (EntityManager.for_upsert l es rows)) db e,
  )

  create_entities_in_status :
      (f : FileRow) (es : List FiledEntity) (db : Db) (e : Error)
      → (EntityManager.create_entities_in l f es db).0 ≡ err e
      → is_some (Entities.if_entities_refused e) ≡ is_own e
  unfolding EntityManager.create_entities_in
  create_entities_in_status f es db e h =
      let reruns = SyncRepository.find_syncs (EntityManager.reruns_of f.sync_id) db in
      let existing = EntityRepository.find_many_entities_by_ids es db in
      ground (arith, write_entities_status (not (length reruns == 0)) es existing db e)

-- The errors of the program that are left without a status: a missing file on the route that updates
-- one entity, and a failed transaction on the route that reruns a sync.
abbrev pub is_missed : Request → Error → Bool
is_missed (Request.patch_entity id x u) (file_error FileError.file_not_found) = true
is_missed (Request.rerun_sync now id r start b) Error.transaction_failure = true
is_missed _ _ = false

module _ (t : Transactor) (l : Lodash) where
  -- Let a transaction fail only by an error of its callback or by one that is not the program's own.
  -- A request that ends in an error is answered with a status exactly if the error is of one of the
  -- program's own classes, with two exceptions: an update of an entity whose file is missing, and a
  -- rerun whose transaction failed, have no status.
  pub serve_status :
      (r : Request) (db : Db) (e : Error) (status : Option StatusCode)
      → IsForeign t
      → (serve t l r db).0 ≡ Reply.next e status
      → is_some status ≡ (is_own e && not (is_missed r e))
  unfolding SyncManager.rerun_sync_if_needed EntityManager.create_entities serve Syncs.get_syncs
      Syncs.post_sync Syncs.get_latest_sync Syncs.patch_sync Syncs.rerun_sync Files.post_file
      Files.post_files Files.patch_file Entities.post_entity Entities.post_entities
      Entities.patch_entity Entities.patch_entities Changesets.post_changeset
      Changesets.get_changeset Changesets.patch_changeset Changesets.patch_changeset_entities
      SyncManager.get_syncs SyncManager.get_latest_sync SyncManager.create_sync
      SyncManager.update_sync FileManager.create_file FileManager.create_files
      FileManager.update_file FileRepository.update_file EntityManager.create_entity
      EntityRepository.create_entity EntityManager.update_entity EntityManager.update_entities
      ChangesetManager.create_changeset ChangesetManager.get_changeset
      ChangesetManager.update_changeset ChangesetManager.update_changeset_entities
      ChangesetRepository.update_changeset
      ChangesetRepository.update_entities_of_changeset_as_completed
  serve_status (Request.post_sync s) db e status f h =
      ground (arith, insert_sync-ThrowsNoOwn s db e)
  serve_status (Request.patch_sync id u) db e status f h = grind (arith, write_sync-ThrowsNoOwn)
  serve_status (Request.rerun_sync now id r start b) db e status f h =
      elim (Option-cases (SyncRepository.find_one_sync_with_last_rerun id db)) [
        | inl missing ↦ ground arith
        | inr (base, found) ↦
            ground (arith, rerun_found_sync_status t f now r start b base.sync base.reruns db e)
      ]
  serve_status (Request.post_file id x) db e status f h = grind (arith, insert_file-ThrowsNoOwn)
  serve_status (Request.post_files id xs) db e status f h =
      ground (arith, insert_files-ThrowsNoOwn (map (FileManager.with_sync_id id) xs) db e)
  serve_status (Request.patch_file id x u) db e status f h = ground arith
  serve_status (Request.post_entity id x) db e status f h =
      ground (arith, insert_entities-ThrowsNoOwn (EntityManager.with_own_file_id id x ∷ []) db e)
  serve_status (Request.post_entities id xs) db e status f h =
      grind (arith, create_entities_in_status l)
  serve_status (Request.patch_entity id x u) db e status f h =
      ground (arith, write_entity-ThrowsNoOwn x id u db e)
  serve_status (Request.patch_entities us) db e status f h =
      ground (arith, write_entities-ThrowsNoOwn us db e)
  serve_status (Request.post_changeset c) db e status f h =
      ground (arith, insert_changeset-ThrowsNoOwn c db e)
  serve_status (Request.patch_changeset id u) db e status f h = ground arith
  serve_status (Request.patch_changeset_entities id) db e status f h = ground arith
  serve_status (Request.get_syncs x) db e status f h = ground arith
  serve_status (Request.get_latest_sync n g) db e status f h = ground arith
  serve_status (Request.get_changeset id) db e status f h = ground arith
