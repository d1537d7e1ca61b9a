-- ===== src/Invariant/Managers.antt =====
-- The calls of the managers, and an invariant that the statements of the repositories keep.
use osm_sync_tracker.Prelude.{
  Bool, true, false, Option, none, some, List, [], ◌∷◌, map, length, ltb, not, ◌==◌, ◌≡◌, refl,
  arith, Option-cases, inl, inr, ◌+◌, if◌then◌else◌, Bool-cases,
}
use osm_sync_tracker.Common.Action.{Action, try_catch, Result, ok, err}
use osm_sync_tracker.Common.Db.{Transactor, rename_failure, IsolationLevel, transactionify}
use osm_sync_tracker.Common.Lodash.{Lodash}
use osm_sync_tracker.Tables.{Uuid, Date, SyncRow, FileRow, EntityRow, Db}
use osm_sync_tracker.Sync.Models.{SyncUpdate, CreateRerunRequest}
use osm_sync_tracker.Sync.Repository as SyncRepository
use osm_sync_tracker.Sync.Rerun
use osm_sync_tracker.Sync.Manager as Syncs
use osm_sync_tracker.File.Models.{File, FileUpdate}
use osm_sync_tracker.File.Manager as Files
use osm_sync_tracker.Entity.Models.{Entity, UpdateEntity, KeyedUpdate, FiledEntity, keyed_update}
use osm_sync_tracker.Entity.Repository as EntityRepository
use osm_sync_tracker.Entity.Manager as Entities
use osm_sync_tracker.Changeset.Models.{Changeset, UpdateChangeset}
use osm_sync_tracker.Changeset.Manager as Changesets
use osm_sync_tracker.Invariant.Keeps.{Keeps, run-Keeps}
use osm_sync_tracker.Invariant.Facts.{StatementsKeep}

module _ {I : Db → Type 0} (facts : StatementsKeep I) where
  pub create_sync-keeps : (s : SyncRow) → Keeps I (Syncs.create_sync s)
  unfolding Syncs.create_sync
  create_sync-keeps s db k = ground (arith, facts.create_sync s db k)

  pub update_sync-keeps : (id : Uuid) (u : SyncUpdate) → Keeps I (Syncs.update_sync id u)
  unfolding Syncs.update_sync
  update_sync-keeps id u db k = grind (arith, facts.update_sync)

  modify_files-keeps :
      (now : Date) (base : Uuid) (b : Bool) (db : Db)
      → I db
      → I (
          (if b
              then Rerun.prepare_incomplete_files base
              else Rerun.update_dangling_files_as_completed now base)
            db)
  modify_files-keeps now base true db k = facts.prepare_incomplete_files base db k
  modify_files-keeps now base false db k = facts.update_dangling_files now base db k

  prepare_rerun-keeps :
      (now : Date) (base : Uuid) (b : Bool) (s : SyncRow)
      → Keeps I (Rerun.prepare_rerun now base b s)
  unfolding Rerun.prepare_rerun
  prepare_rerun-keeps now base b s db k =
      let latest = Rerun.latest_run_id base db in
      let history_base = if latest == base then none else some base in
      let d1 = (Rerun.create_entity_history base latest history_base db).1 in
      let k1 = facts.create_entity_history base latest history_base db k in
      let k2 = modify_files-keeps now base b d1 k1 in
      let statuses = Rerun.statuses_for_rerun b in
      let k3 = facts.prepare_incomplete_entities base statuses _ k2 in
      ground (arith, k1, facts.create_sync s _ k3)

  rerun_steps-keeps :
      (now : Date) (base : Uuid) (b : Bool) (s : SyncRow) → Keeps I (Rerun.rerun_steps now base b s)
  unfolding Rerun.rerun_steps
  rerun_steps-keeps now base b s db k =
      let d1 = (Rerun.delete_empty_files base db).1 in
      let k1 = facts.delete_empty_files base db k in
      let k2 = facts.try_closing_sync now base d1 k1 in
      let d2 = (Rerun.try_closing_sync now base d1).1 in
      ground (
        arith,
        k1,
        k2,
        prepare_rerun-keeps now base b s d1 k1,
        prepare_rerun-keeps now base b s d2 k2,
      )

  rerun_body-keeps :
      (now : Date) (base : Option Uuid) (b : Bool) (s : SyncRow) (db : Db)
      → s.base_sync_id ≡ base
      → I db
      → I ((Rerun.rerun_body now b s) db).1
  unfolding Rerun.rerun_body
  rerun_body-keeps now none b s db e k = ground (arith, facts.create_sync s db k)
  rerun_body-keeps now (some base) b s db e k = ground (arith, rerun_steps-keeps now base b s db k)

  rename_failure-keeps :
      {A : Type 0} (m : Action Db A) → Keeps I m → Keeps I (try_catch m rename_failure)
  unfolding rename_failure
  rename_failure-keeps m keep db k = ground (arith, keep db k)

  pub transactionify-keeps :
      {A : Type 0} (t : Transactor) (level : IsolationLevel) (m : Action Db A)
      → Keeps I m
      → Keeps I (transactionify t level m)
  unfolding transactionify
  transactionify-keeps t level m keep =
      rename_failure-keeps (t.run level m) (run-Keeps t level m keep)

  left_behind-keeps :
      (stays : Bool) (r : Result Bool) (sync : SyncRow) (db : Db)
      → I db
      → I (Rerun.left_behind stays r sync db)
  unfolding Rerun.left_behind
  left_behind-keeps true (ok true) sync db k = facts.create_sync sync db k
  left_behind-keeps true (ok false) sync db k = k
  left_behind-keeps true (err e) sync db k = k
  left_behind-keeps false r sync db k = k

  pub create_rerun-keeps :
      (t : Transactor) (now : Date) (r : CreateRerunRequest) → Keeps I (Rerun.create_rerun t now r)
  unfolding Rerun.create_rerun rename_failure
  create_rerun-keeps t now r db k =
      let body = Rerun.rerun_body now r.should_rerun_not_synced r.sync in
      let after =
        run-Keeps t IsolationLevel.serializable body
          (λ d. rerun_body-keeps now r.sync.base_sync_id r.should_rerun_not_synced r.sync d refl) db
          k in
      ground (
        arith,
        after,
        left_behind-keeps (t.keeps_own db) (body db).0 r.sync
            (t.run IsolationLevel.serializable body db).1 after,
      )

  rerun_found_sync-keeps :
      (t : Transactor) (now : Date) (rerun_id : Uuid) (start : Date) (b : Option Bool)
      (sync : SyncRow) (reruns : List SyncRow)
      → Keeps I
          (Syncs.rerun_found_sync t now rerun_id start b (record { sync = sync; reruns = reruns }))
  unfolding Syncs.rerun_found_sync
  rerun_found_sync-keeps t now rerun_id start b sync [] db k =
      ground (arith, create_rerun-keeps t now (Syncs.rerun_request sync rerun_id start b 1) db k)
  rerun_found_sync-keeps t now rerun_id start b sync (r ∷ rs) db k = ground (
    arith,
    create_rerun-keeps t now (Syncs.rerun_request sync rerun_id start b (r.run_number + 1)) db k,
  )

  pub rerun_sync_if_needed-keeps :
      (t : Transactor) (now : Date) (id rerun_id : Uuid) (start : Date) (b : Option Bool)
      → Keeps I (Syncs.rerun_sync_if_needed t now id rerun_id start b)
  unfolding Syncs.rerun_sync_if_needed
  rerun_sync_if_needed-keeps t now id rerun_id start b db k =
      elim (Option-cases (SyncRepository.find_one_sync_with_last_rerun id db)) [
        | inl missing ↦ ground arith
        | inr (base, found) ↦
            ground (arith, rerun_found_sync-keeps t now rerun_id start b base.sync base.reruns db k)
      ]

  pub create_file-keeps : (id : Uuid) (file : File) → Keeps I (Files.create_file id file)
  unfolding Files.create_file
  create_file-keeps id file db k = grind (arith, facts.create_file)

  pub create_files-keeps :
      (l : Lodash) (id : Uuid) (files : List File) → Keeps I (Files.create_files l id files)
  unfolding Files.create_files
  create_files-keeps l id files db k =
      ground (arith, facts.create_files (map (Files.with_sync_id id) files) db k)

  pub update_file-keeps :
      (id file_id : Uuid) (u : FileUpdate) → Keeps I (Files.update_file id file_id u)
  unfolding Files.update_file
  update_file-keeps id file_id u db k = ground (arith, facts.update_file file_id u db k)

  pub create_entity-keeps : (id : Uuid) (e : Entity) → Keeps I (Entities.create_entity id e)
  unfolding Entities.create_entity
  create_entity-keeps id e db k =
      ground (arith, facts.create_entity (Entities.with_own_file_id id e) db k)

  pub update_entity-keeps :
      (id entity_id : Uuid) (u : UpdateEntity) → Keeps I (Entities.update_entity id entity_id u)
  unfolding Entities.update_entity
  update_entity-keeps id entity_id u db k = ground (arith, facts.update_entity entity_id id u db k)

  module _ (l : Lodash) where
    insert_entities-keeps :
        (es : List FiledEntity) (o : Option (List EntityRow))
        → Keeps I (Entities.insert_entities l es o)
    insert_entities-keeps es o db k = ground (arith, facts.create_entities es db k)

    upsert_entities-keeps :
        (es : List FiledEntity) (o : Option (List EntityRow))
        → Keeps I (Entities.upsert_entities l es o)
    upsert_entities-keeps es none db k =
        ground (arith, facts.update_entities (map keyed_update es) db k)
    upsert_entities-keeps es (some rows) db k =
        ground
          (arith, facts.update_entities (map keyed_update (Entities.for_upsert l es rows)) db k)

    write_entities-keeps :
        (b : Bool) (es : List FiledEntity) (o : Option (List EntityRow))
        → Keeps I (Entities.write_entities l b es o)
    write_entities-keeps true es o = upsert_entities-keeps es o
    write_entities-keeps false es o = insert_entities-keeps es o

    create_entities_in-keeps :
        (f : FileRow) (es : List FiledEntity) → Keeps I (Entities.create_entities_in l f es)
    unfolding Entities.create_entities_in
    create_entities_in-keeps f es db k =
        let reruns = SyncRepository.find_syncs (Entities.reruns_of f.sync_id) db in
        let existing = EntityRepository.find_many_entities_by_ids es db in
        elim (Bool-cases (ltb 0 (length (Entities.duplicate_ids l (map Entities.id_of es))))) [
          | inl twice ↦ rw twice k
          | inr once ↦ rw once (write_entities-keeps (not (length reruns == 0)) es existing db k)
        ]

    pub create_entities-keeps :
        (id : Uuid) (es : List Entity) → Keeps I (Entities.create_entities l id es)
    unfolding Entities.create_entities
    create_entities-keeps id es db k = grind (arith, create_entities_in-keeps)

    pub update_entities-keeps : (us : List KeyedUpdate) → Keeps I (Entities.update_entities l us)
    unfolding Entities.update_entities
    update_entities-keeps us db k = ground (arith, facts.update_entities us db k)

  pub create_changeset-keeps : (c : Changeset) → Keeps I (Changesets.create_changeset c)
  unfolding Changesets.create_changeset
  create_changeset-keeps c db k = ground (arith, facts.create_changeset c db k)

  pub update_changeset-keeps :
      (id : Uuid) (u : UpdateChangeset) → Keeps I (Changesets.update_changeset id u)
  unfolding Changesets.update_changeset
  update_changeset-keeps id u db k = ground (arith, facts.update_changeset id u db k)

  pub update_changeset_entities-keeps :
      (id : Uuid) → Keeps I (Changesets.update_changeset_entities id)
  unfolding Changesets.update_changeset_entities
  update_changeset_entities-keeps id db k = ground (arith, facts.complete_entities id db k)
