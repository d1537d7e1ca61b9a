-- ===== src/Invariant/Facts.antt =====
-- The statements of the repositories, and what each of them keeps.
use osm_sync_tracker.Prelude.{Option, List}
use osm_sync_tracker.Common.Enums.{EntityStatus}
use osm_sync_tracker.Common.Action.{modify}
use osm_sync_tracker.Tables.{Uuid, Date, SyncRow, Db}
use osm_sync_tracker.Sync.Repository as Syncs
use osm_sync_tracker.Sync.Rerun
use osm_sync_tracker.Sync.Models.{SyncUpdate}
use osm_sync_tracker.File.Repository as Files
use osm_sync_tracker.File.Models.{File, FileUpdate}
use osm_sync_tracker.Entity.Repository as Entities
use osm_sync_tracker.Entity.Models.{UpdateEntity, KeyedUpdate, FiledEntity}
use osm_sync_tracker.Changeset.Repository as Changesets
use osm_sync_tracker.Changeset.Models.{Changeset, UpdateChangeset}
use osm_sync_tracker.Invariant.Keeps.{Keeps}

-- An invariant that no statement breaks.
pub record StatementsKeep (I : Db → Type 0) : Type 0 where
  pub create_sync : (s : SyncRow) → Keeps I (Syncs.create_sync s)
  pub update_sync : (id : Uuid) (u : SyncUpdate) → Keeps I (Syncs.update_sync id u)
  pub attempt_sync_closure : (now : Date) (id : Uuid) → Keeps I (Syncs.attempt_sync_closure now id)
  pub try_closing_sync : (now : Date) (id : Uuid) → Keeps I (Rerun.try_closing_sync now id)
  pub delete_empty_files : (id : Uuid) → Keeps I (Rerun.delete_empty_files id)
  pub create_entity_history :
      (base id : Uuid) (history_base : Option Uuid)
      → Keeps I (Rerun.create_entity_history base id history_base)
  pub create_files : (files : List File) → Keeps I (Files.create_files files)
  pub create_file : (file : File) → Keeps I (Files.create_file file)
  pub update_file : (id : Uuid) (u : FileUpdate) → Keeps I (Files.update_file id u)
  pub attempt_file_closure : (now : Date) (id : Uuid) → Keeps I (Files.attempt_file_closure now id)
  pub prepare_incomplete_files :
      (base : Uuid) → Keeps I (modify (Rerun.prepare_incomplete_files base))
  pub update_dangling_files :
      (now : Date) (id : Uuid) → Keeps I (modify (Rerun.update_dangling_files_as_completed now id))
  pub prepare_incomplete_entities :
      (base : Uuid) (statuses : List EntityStatus)
      → Keeps I (modify (Rerun.prepare_incomplete_entities base statuses))
  pub create_entities : (entities : List FiledEntity) → Keeps I (Entities.create_entities entities)
  pub create_entity : (entity : FiledEntity) → Keeps I (Entities.create_entity entity)
  pub update_entity :
      (entity_id file_id : Uuid) (u : UpdateEntity)
      → Keeps I (Entities.update_entity entity_id file_id u)
  pub update_entities : (us : List KeyedUpdate) → Keeps I (Entities.update_entities us)
  pub create_changeset : (c : Changeset) → Keeps I (Changesets.create_changeset c)
  pub update_changeset :
      (id : Uuid) (u : UpdateChangeset) → Keeps I (Changesets.update_changeset id u)
  pub complete_entities :
      (id : Uuid) → Keeps I (Changesets.update_entities_of_changeset_as_completed id)
