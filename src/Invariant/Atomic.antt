-- ===== src/Invariant/Atomic.antt =====
-- The managers of src/*/models where they throw.
use osm_sync_tracker.Prelude.{
  none, true, false, List, ◌≡◌, arith, ◌∷◌, map, Option, Bool, [], Option-cases, ◌+◌, some, inl,
  inr, length, ◌==◌, Bool-cases, ltb, not,
}
use osm_sync_tracker.Common.Errors.{Error}
use osm_sync_tracker.Sync.Models.{SyncUpdate, CreateRerunRequest}
use osm_sync_tracker.Tables.{Uuid, SyncRow, Db, Date, EntityRow, FileRow}
use osm_sync_tracker.File.Models.{File, FileUpdate}
use osm_sync_tracker.Entity.Models.{FiledEntity, KeyedUpdate, Entity, UpdateEntity, keyed_update}
use osm_sync_tracker.Common.Db.{Transactor, rename_failure, IsolationLevel}
use osm_sync_tracker.Changeset.Models.{Changeset, UpdateChangeset}
use osm_sync_tracker.Common.Lodash.{Lodash}
use osm_sync_tracker.Sync.Repository as SyncRepository
use osm_sync_tracker.Sync.Rerun
use osm_sync_tracker.Sync.Manager as Syncs
use osm_sync_tracker.File.Repository as FileRepository
use osm_sync_tracker.File.Manager as Files
use osm_sync_tracker.Entity.Repository as EntityRepository
use osm_sync_tracker.Entity.Manager as Entities
use osm_sync_tracker.Changeset.Repository as ChangesetRepository
use osm_sync_tracker.Changeset.Manager as Changesets
use osm_sync_tracker.Common.Action.{Action, err}

abbrev pub IsAtomic : {A : Type 0} → Action Db A → Type 0
IsAtomic m = (db : Db) (e : Error) → (m db).0 ≡ err e → (m db).1 ≡ db

insert_sync-IsAtomic : (s : SyncRow) → IsAtomic (SyncRepository.create_sync s)
unfolding SyncRepository.create_sync
insert_sync-IsAtomic s db e h = ground arith

write_sync-IsAtomic : (id : Uuid) (u : SyncUpdate) → IsAtomic (SyncRepository.update_sync id u)
unfolding SyncRepository.update_sync
write_sync-IsAtomic id u db e h = ground arith

pub create_sync-IsAtomic : (s : SyncRow) → IsAtomic (Syncs.create_sync s)
unfolding Syncs.create_sync
create_sync-IsAtomic s db e h = ground (arith, insert_sync-IsAtomic s db e)

pub update_sync-IsAtomic : (id : Uuid) (u : SyncUpdate) → IsAtomic (Syncs.update_sync id u)
unfolding Syncs.update_sync
update_sync-IsAtomic id u db e h = grind (arith, write_sync-IsAtomic)

-- A transaction that fails is rolled back.
run-IsAtomic :
    {A : Type 0} (t : Transactor) (level : IsolationLevel) (m : Action Db A)
    → IsAtomic (t.run level m)
run-IsAtomic t level m db e h =
    t.rolls_back level m db e (t.run level m db).1 (λ i. (h i, (t.run level m db).1))

-- A failed rerun has written nothing, if no call of its own stays.
pub create_rerun-IsAtomic :
    (t : Transactor) (now : Date) (r : CreateRerunRequest) (db : Db) (e : Error)
    → t.keeps_own db ≡ false
    → (Rerun.create_rerun t now r db).0 ≡ err e
    → (Rerun.create_rerun t now r db).1 ≡ db
unfolding Rerun.create_rerun rename_failure Rerun.left_behind
create_rerun-IsAtomic t now r db e joined h = grind (
  arith,
  run-IsAtomic t IsolationLevel.serializable (Rerun.rerun_body now r.should_rerun_not_synced r.sync)
      db,
)

rerun_found_sync-IsAtomic :
    (t : Transactor) (now : Date) (rerun_id : Uuid) (start : Date) (b : Option Bool)
    (sync : SyncRow) (reruns : List SyncRow) (db : Db) (e : Error)
    → let run =
        Syncs.rerun_found_sync t now rerun_id start b (record { sync = sync; reruns = reruns }) in
      t.keeps_own db ≡ false → (run db).0 ≡ err e → (run db).1 ≡ db
unfolding Syncs.rerun_found_sync
rerun_found_sync-IsAtomic t now rerun_id start b sync [] db e joined h =
    ground
      (arith, create_rerun-IsAtomic t now (Syncs.rerun_request sync rerun_id start b 1) db e joined)
rerun_found_sync-IsAtomic t now rerun_id start b sync (r ∷ rs) db e joined h = ground (
  arith,
  create_rerun-IsAtomic t now (Syncs.rerun_request sync rerun_id start b (r.run_number + 1)) db e
      joined,
)

pub rerun_sync_if_needed-IsAtomic :
    (t : Transactor) (now : Date) (id rerun_id : Uuid) (start : Date) (b : Option Bool) (db : Db)
    (e : Error)
    → t.keeps_own db ≡ false
    → (Syncs.rerun_sync_if_needed t now id rerun_id start b db).0 ≡ err e
    → (Syncs.rerun_sync_if_needed t now id rerun_id start b db).1 ≡ db
unfolding Syncs.rerun_sync_if_needed
rerun_sync_if_needed-IsAtomic t now id rerun_id start b db e joined h =
    elim (Option-cases (SyncRepository.find_one_sync_with_last_rerun id db)) [
      | inl missing ↦ ground arith
      | inr (base, found) ↦ ground (
        arith,
        rerun_found_sync-IsAtomic t now rerun_id start b base.sync base.reruns db e joined,
      )
    ]

insert_file-IsAtomic : (f : File) → IsAtomic (FileRepository.create_file f)
unfolding FileRepository.create_file
insert_file-IsAtomic f db e h = ground arith

insert_files-IsAtomic : (fs : List File) → IsAtomic (FileRepository.create_files fs)
unfolding FileRepository.create_files
insert_files-IsAtomic fs db e h = ground arith

write_file-IsAtomic : (id : Uuid) (u : FileUpdate) → IsAtomic (FileRepository.update_file id u)
unfolding FileRepository.update_file
write_file-IsAtomic id u db e h = ground arith

pub create_file-IsAtomic : (id : Uuid) (f : File) → IsAtomic (Files.create_file id f)
unfolding Files.create_file
create_file-IsAtomic id f db e h = grind (arith, insert_file-IsAtomic)

pub create_files-IsAtomic :
    (l : Lodash) (id : Uuid) (fs : List File) → IsAtomic (Files.create_files l id fs)
unfolding Files.create_files
create_files-IsAtomic l id fs db e h =
    ground (arith, insert_files-IsAtomic (map (Files.with_sync_id id) fs) db e)

pub update_file-IsAtomic :
    (id file_id : Uuid) (u : FileUpdate) → IsAtomic (Files.update_file id file_id u)
unfolding Files.update_file
update_file-IsAtomic id file_id u db e h = ground (arith, write_file-IsAtomic file_id u db e)

insert_entities-IsAtomic : (es : List FiledEntity) → IsAtomic (EntityRepository.create_entities es)
unfolding EntityRepository.create_entities
insert_entities-IsAtomic es db e h = ground arith

insert_entity-IsAtomic : (x : FiledEntity) → IsAtomic (EntityRepository.create_entity x)
unfolding EntityRepository.create_entity
insert_entity-IsAtomic x = insert_entities-IsAtomic (x ∷ [])

save_entities-IsAtomic : (us : List KeyedUpdate) → IsAtomic (EntityRepository.update_entities us)
unfolding EntityRepository.update_entities
save_entities-IsAtomic us db e h = ground arith

write_entity-IsAtomic :
    (entity_id file_id : Uuid) (u : UpdateEntity)
    → IsAtomic (EntityRepository.update_entity entity_id file_id u)
unfolding EntityRepository.update_entity
write_entity-IsAtomic entity_id file_id u db e h = ground arith

pub create_entity-IsAtomic : (id : Uuid) (x : Entity) → IsAtomic (Entities.create_entity id x)
unfolding Entities.create_entity
create_entity-IsAtomic id x db e h =
    ground (arith, insert_entity-IsAtomic (Entities.with_own_file_id id x) db e)

pub update_entity-IsAtomic :
    (id entity_id : Uuid) (u : UpdateEntity) → IsAtomic (Entities.update_entity id entity_id u)
unfolding Entities.update_entity
update_entity-IsAtomic id entity_id u db e h =
    ground (arith, write_entity-IsAtomic entity_id id u db e)

module _ (l : Lodash) where
  insert_bulk-IsAtomic :
      (es : List FiledEntity) (o : Option (List EntityRow))
      → IsAtomic (Entities.insert_entities l es o)
  insert_bulk-IsAtomic es o db e h = ground (arith, insert_entities-IsAtomic es db e)

  upsert_bulk-IsAtomic :
      (es : List FiledEntity) (o : Option (List EntityRow))
      → IsAtomic (Entities.upsert_entities l es o)
  upsert_bulk-IsAtomic es none db e h =
      ground (arith, save_entities-IsAtomic (map keyed_update es) db e)
  upsert_bulk-IsAtomic es (some rows) db e h =
      ground (arith, save_entities-IsAtomic (map keyed_update (Entities.for_upsert l es rows)) db e)

  write_entities-IsAtomic :
      (b : Bool) (es : List FiledEntity) (o : Option (List EntityRow))
      → IsAtomic (Entities.write_entities l b es o)
  write_entities-IsAtomic true es o = upsert_bulk-IsAtomic es o
  write_entities-IsAtomic false es o = insert_bulk-IsAtomic es o

  create_entities_in-IsAtomic :
      (f : FileRow) (es : List FiledEntity) → IsAtomic (Entities.create_entities_in l f es)
  unfolding Entities.create_entities_in
  create_entities_in-IsAtomic f es db e h =
      let reruns = SyncRepository.find_syncs (Entities.reruns_of f.sync_id) db in
      let existing = EntityRepository.find_many_entities_by_ids es db in
      elim (Bool-cases (ltb 0 (length (Entities.duplicate_ids l (map Entities.id_of es))))) [
        | inl twice ↦ rw twice
        | inr once ↦
            rw once
              (write_entities-IsAtomic (not (length reruns == 0)) es existing db e (rw once at h))
      ]

  pub create_entities-IsAtomic :
      (id : Uuid) (es : List Entity) → IsAtomic (Entities.create_entities l id es)
  unfolding Entities.create_entities
  create_entities-IsAtomic id es db e h = grind (arith, create_entities_in-IsAtomic)

  pub update_entities-IsAtomic : (us : List KeyedUpdate) → IsAtomic (Entities.update_entities l us)
  unfolding Entities.update_entities
  update_entities-IsAtomic us db e h = ground (arith, save_entities-IsAtomic us db e)

insert_changeset-IsAtomic : (c : Changeset) → IsAtomic (ChangesetRepository.create_changeset c)
unfolding ChangesetRepository.create_changeset
insert_changeset-IsAtomic c db e h = ground arith

pub create_changeset-IsAtomic : (c : Changeset) → IsAtomic (Changesets.create_changeset c)
unfolding Changesets.create_changeset
create_changeset-IsAtomic c db e h = ground (arith, insert_changeset-IsAtomic c db e)

pub update_changeset-IsAtomic :
    (id : Uuid) (u : UpdateChangeset) → IsAtomic (Changesets.update_changeset id u)
unfolding Changesets.update_changeset ChangesetRepository.update_changeset
update_changeset-IsAtomic id u db e h = ground arith

pub update_changeset_entities-IsAtomic :
    (id : Uuid) → IsAtomic (Changesets.update_changeset_entities id)
unfolding Changesets.update_changeset_entities
    ChangesetRepository.update_entities_of_changeset_as_completed
update_changeset_entities-IsAtomic id db e h = ground arith
