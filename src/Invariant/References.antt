-- ===== src/Invariant/References.antt =====
-- The statements of the repositories, and the foreign keys.
use osm_sync_tracker.Prelude.{
  ap, update_where-none, all-append, all-filter_kept, all-filter_self, all-update_where,
  any-update_where_same, Bool, true, not, Option, List, [], ◌∷◌, ◌++◌, map, ◌≡◌, refl, arith, any,
  all, filter, contains, update_where, patch, ◌==◌, ◌||◌, none, Bool-cases, inl, inr, false,
}
use osm_sync_tracker.Common.Enums.{EntityStatus}
use osm_sync_tracker.Common.Action.{modify}
use osm_sync_tracker.Tables.{
  Uuid, Date, SyncRow, EntityRow, Db, has_sync, has_changeset, file_refers, entity_refers,
  history_refers, nullable,
}
use osm_sync_tracker.Tables.References.{
  IsReferring, Grows-IsReferring, any-filter_kept, nullable-patch, nullable_mono,
}
use osm_sync_tracker.Sync.Repository as Syncs
use osm_sync_tracker.Sync.Rerun
use osm_sync_tracker.Sync.Models.{SyncUpdate}
use osm_sync_tracker.File.Repository as Files
use osm_sync_tracker.File.Models.{File, FileUpdate, file_row}
use osm_sync_tracker.Entity.Repository as Entities
use osm_sync_tracker.Entity.Models.{UpdateEntity, KeyedUpdate, FiledEntity, entity_row}
use osm_sync_tracker.Changeset.Repository as Changesets
use osm_sync_tracker.Changeset.Models.{Changeset, UpdateChangeset, changeset_row}
use osm_sync_tracker.Tables.Changes.{
  syncs_grown, files_grown, changesets_grown, entities_set, syncs_updated, files_updated,
}
use osm_sync_tracker.Invariant.Facts.{StatementsKeep}
use osm_sync_tracker.Invariant.Keeps.{Keeps}

create_sync-refers : (s : SyncRow) → Keeps IsReferring (Syncs.create_sync s)
unfolding Syncs.create_sync
create_sync-refers s db k = ground (arith, syncs_grown (s ∷ []) db)

-- An update that names a base sync names one that is there.
patched_syncs :
    (id : Uuid) (u : SyncUpdate) (db : Db)
    → nullable (has_sync db) (patch u.base_sync_id none) ≡ true
    → IsReferring db
    → IsReferring
        (record db { syncs = update_where (λ s. s.id == id) (Syncs.patch_sync u) db.syncs })
patched_syncs id u db there =
    syncs_updated (λ s. s.id == id) (Syncs.patch_sync u) db (λ x. refl)
      (λ x e.
        nullable-patch (λ b. b == x.id || has_sync db b) u.base_sync_id x.base_sync_id
          (nullable_mono (has_sync db) _ (patch u.base_sync_id none) (λ b e. ground arith) there) e)

-- An update of a sync that is not there changes nothing.
unpatched_syncs :
    (id : Uuid) (u : SyncUpdate) (db : Db)
    → has_sync db id ≡ false
    → IsReferring db
    → IsReferring
        (record db { syncs = update_where (λ s. s.id == id) (Syncs.patch_sync u) db.syncs })
unpatched_syncs id u db absent k =
    rw (update_where-none (λ s. s.id == id) (Syncs.patch_sync u) db.syncs absent) k

update_sync-refers : (id : Uuid) (u : SyncUpdate) → Keeps IsReferring (Syncs.update_sync id u)
unfolding Syncs.update_sync
update_sync-refers id u db k = ground (arith, patched_syncs id u db, unpatched_syncs id u db)

attempt_sync_closure-refers :
    (now : Date) (id : Uuid) → Keeps IsReferring (Syncs.attempt_sync_closure now id)
unfolding Syncs.attempt_sync_closure
attempt_sync_closure-refers now id db k = syncs_updated _ _ db (λ x. refl) (λ x e. e) k

try_closing_sync-refers :
    (now : Date) (id : Uuid) → Keeps IsReferring (Rerun.try_closing_sync now id)
unfolding Rerun.try_closing_sync
try_closing_sync-refers now id db k = syncs_updated _ _ db (λ x. refl) (λ x e. e) k

-- The rows that refer to a deleted file are deleted with it.
delete_empty_files-refers : (id : Uuid) → Keeps IsReferring (Rerun.delete_empty_files id)
unfolding Rerun.delete_empty_files
delete_empty_files-refers id db k =
    let empty = Rerun.is_empty_file id db in
    let ids = map (λ f. f.file_id) (filter empty db.files) in
    let db' = (Rerun.delete_empty_files id db).1 in
    record {
      syncs = k.syncs;
      files = all-filter_kept (file_refers db) (λ f. not (empty f)) db.files k.files;
      entities =
          all-filter_self (entity_refers db) (λ e. not (contains e.file_id ids)) (entity_refers db')
            db.entities
            (λ e h kept. ground (arith, any-filter_kept (λ f. f.file_id) empty e.file_id db.files))
            k.entities;
      history =
          all-filter_self (history_refers db) (λ h. not (contains h.file_id ids))
            (history_refers db') db.history
            (λ h e kept. ground (arith, any-filter_kept (λ f. f.file_id) empty h.file_id db.files))
            k.history;
    }

create_entity_history-refers :
    (base id : Uuid) (history_base : Option Uuid)
    → Keeps IsReferring (Rerun.create_entity_history base id history_base)
unfolding Rerun.create_entity_history
create_entity_history-refers base id history_base db k = ground (
  arith,
  all-append (history_refers db) db.history
      (map (Rerun.history_row id history_base) (filter (Rerun.is_for_history base db) db.entities)),
)

create_files-refers : (files : List File) → Keeps IsReferring (Files.create_files files)
unfolding Files.create_files
create_files-refers files db k = ground (arith, files_grown (map file_row files) db)

create_file-refers : (file : File) → Keeps IsReferring (Files.create_file file)
unfolding Files.create_file
create_file-refers file db k = ground (arith, files_grown (file_row file ∷ []) db)

update_file-refers : (id : Uuid) (u : FileUpdate) → Keeps IsReferring (Files.update_file id u)
unfolding Files.update_file
update_file-refers id u db k =
    let written =
      files_updated (λ f. f.file_id == id)
        (λ f. record f { total_entities = patch u.total_entities f.total_entities }) db (λ x. refl)
        (λ x. refl) k in
    ground (arith, written)

attempt_file_closure-refers :
    (now : Date) (id : Uuid) → Keeps IsReferring (Files.attempt_file_closure now id)
unfolding Files.attempt_file_closure
attempt_file_closure-refers now id db k = files_updated _ _ db (λ x. refl) (λ x. refl) k

prepare_incomplete_files-refers :
    (base : Uuid) → Keeps IsReferring (modify (Rerun.prepare_incomplete_files base))
unfolding Rerun.prepare_incomplete_files
prepare_incomplete_files-refers base db k = files_updated _ _ db (λ x. refl) (λ x. refl) k

update_dangling_files-refers :
    (now : Date) (id : Uuid)
    → Keeps IsReferring (modify (Rerun.update_dangling_files_as_completed now id))
unfolding Rerun.update_dangling_files_as_completed
update_dangling_files-refers now id db k = files_updated _ _ db (λ x. refl) (λ x. refl) k

prepare_incomplete_entities-refers :
    (base : Uuid) (statuses : List EntityStatus)
    → Keeps IsReferring (modify (Rerun.prepare_incomplete_entities base statuses))
unfolding Rerun.prepare_incomplete_entities
prepare_incomplete_entities-refers base statuses db k =
    entities_set _ db
      (all-update_where (entity_refers db) (Rerun.is_for_rerun base statuses db) Rerun.reset_entity
        db.entities (λ x e. ground arith) k.entities)
      k

create_entities-refers :
    (entities : List FiledEntity) → Keeps IsReferring (Entities.create_entities entities)
unfolding Entities.create_entities
create_entities-refers entities db k = ground (
  arith,
  entities_set (db.entities ++ map entity_row entities) db,
  all-append (entity_refers db) db.entities (map entity_row entities),
)

create_entity-refers : (entity : FiledEntity) → Keeps IsReferring (Entities.create_entity entity)
unfolding Entities.create_entity
create_entity-refers entity = create_entities-refers (entity ∷ [])

-- An update that names a changeset names one that is there.
patch_entity-refers :
    (db : Db) (u : UpdateEntity)
    → nullable (has_changeset db) (patch u.changeset_id none) ≡ true
    → (x : EntityRow) → entity_refers db x ≡ true
    → entity_refers db (Entities.patch_entity u x) ≡ true
patch_entity-refers db u h x e =
    ground (arith, nullable-patch (has_changeset db) u.changeset_id x.changeset_id)

patched_entities :
    (p : EntityRow → Bool) (u : UpdateEntity) (db : Db)
    → nullable (has_changeset db) (patch u.changeset_id none) ≡ true
    → IsReferring db
    → IsReferring (record db { entities = update_where p (Entities.patch_entity u) db.entities })
patched_entities p u db there k =
    entities_set _ db
      (all-update_where (entity_refers db) p (Entities.patch_entity u) db.entities
        (patch_entity-refers db u there) k.entities)
      k

update_entity-refers :
    (entity_id file_id : Uuid) (u : UpdateEntity)
    → Keeps IsReferring (Entities.update_entity entity_id file_id u)
unfolding Entities.update_entity
update_entity-refers entity_id file_id u db k = ground (
  arith,
  patched_entities (Entities.has_key entity_id file_id) u db,
  λ (h : any (Entities.has_key entity_id file_id) db.entities ≡ false).
      ap (λ entities. record db { entities = entities })
        (update_where-none (Entities.has_key entity_id file_id) (Entities.patch_entity u)
          db.entities h),
)

save_entity-refers :
    (db : Db) (u : KeyedUpdate) (rows : List EntityRow)
    → entity_refers db (Entities.new_row u) ≡ true
    → all (entity_refers db) rows ≡ true
    → all (entity_refers db) (Entities.save_entity u rows) ≡ true
save_entity-refers db u rows h k =
    elim (Bool-cases (any (Entities.has_key u.entity_id u.file_id) rows)) [
      | inl there ↦ rw there (
          all-update_where (entity_refers db) (Entities.has_key u.entity_id u.file_id)
            (Entities.patch_entity u.update) rows (patch_entity-refers db u.update (ground arith))
            k)
      | inr absent ↦
          rw absent (all-append (entity_refers db) rows (Entities.new_row u ∷ []) k (ground arith))
    ]

save_rows-refers :
    (db : Db) (us : List KeyedUpdate) (rows : List EntityRow)
    → all (λ u. entity_refers db (Entities.new_row u)) us ≡ true
    → all (entity_refers db) rows ≡ true
    → all (entity_refers db) (Entities.save_rows us rows) ≡ true
save_rows-refers db [] rows h k = k
save_rows-refers db (u ∷ us) rows h k =
    save_rows-refers db us (Entities.save_entity u rows) (ground arith)
      (save_entity-refers db u rows (ground arith) k)

update_entities-refers : (us : List KeyedUpdate) → Keeps IsReferring (Entities.update_entities us)
unfolding Entities.update_entities
update_entities-refers us db k =
    ground (
      arith,
      entities_set (Entities.save_rows us db.entities) db,
      save_rows-refers db us db.entities,
    )

create_changeset-refers : (c : Changeset) → Keeps IsReferring (Changesets.create_changeset c)
unfolding Changesets.create_changeset
create_changeset-refers c db k = ground (arith, changesets_grown (changeset_row c ∷ []) db)

patched_changesets :
    (id : Uuid) (u : UpdateChangeset) (db : Db)
    → IsReferring db
    → IsReferring (record db {
      changesets =
          update_where
            (λ c. c.changeset_id == id)
            (λ c. record c { osm_id = patch u.osm_id c.osm_id })
            db.changesets;
    })
patched_changesets id u db k =
    Grows-IsReferring {db = db}
      (record {
        syncs = λ i e. e;
        files = λ i e. e;
        changesets = λ i e.
            rw
              (any-update_where_same (λ c. c.changeset_id == i) (λ c. c.changeset_id == id)
                (λ c. record c { osm_id = patch u.osm_id c.osm_id }) db.changesets (λ x. refl))
              e;
      })
      k.syncs k.files k.entities k.history

update_changeset-refers :
    (id : Uuid) (u : UpdateChangeset) → Keeps IsReferring (Changesets.update_changeset id u)
unfolding Changesets.update_changeset
update_changeset-refers id u db k = ground (arith, patched_changesets id u db k)

complete_entities-refers :
    (id : Uuid) → Keeps IsReferring (Changesets.update_entities_of_changeset_as_completed id)
unfolding Changesets.update_entities_of_changeset_as_completed
complete_entities-refers id db k =
    entities_set _ db
      (all-update_where (entity_refers db) (Changesets.is_in_changeset id)
        (λ e. record e { status = EntityStatus.completed }) db.entities (λ x e. e) k.entities)
      k

pub IsReferring-facts : StatementsKeep IsReferring
IsReferring-facts = record {
  create_sync = create_sync-refers;
  update_sync = update_sync-refers;
  attempt_sync_closure = attempt_sync_closure-refers;
  try_closing_sync = try_closing_sync-refers;
  delete_empty_files = delete_empty_files-refers;
  create_entity_history = create_entity_history-refers;
  create_files = create_files-refers;
  create_file = create_file-refers;
  update_file = update_file-refers;
  attempt_file_closure = attempt_file_closure-refers;
  prepare_incomplete_files = prepare_incomplete_files-refers;
  update_dangling_files = update_dangling_files-refers;
  prepare_incomplete_entities = prepare_incomplete_entities-refers;
  create_entities = create_entities-refers;
  create_entity = create_entity-refers;
  update_entity = update_entity-refers;
  update_entities = update_entities-refers;
  create_changeset = create_changeset-refers;
  update_changeset = update_changeset-refers;
  complete_entities = complete_entities-refers;
}
