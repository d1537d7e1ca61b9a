-- ===== src/Http/Routes.antt =====
-- The routers of src/sync/routes/syncRouter.ts, src/file/routes/fileRouter.ts,
-- src/entity/routes/entityRouter.ts and src/changeset/routes/changesetRouter.ts, below the paths of
-- src/serverBuilder.ts: a constructor for each route, and the handler that serves it.
use osm_sync_tracker.Changeset.Models.{Changeset, UpdateChangeset}
use osm_sync_tracker.Entity.Models.{Entity, UpdateEntity, KeyedUpdate}
use osm_sync_tracker.File.Models.{File, FileUpdate}
use osm_sync_tracker.Entity.Manager.{EntityBulkCreationResult}
use osm_sync_tracker.Common.Enums.{GeometryType}
use osm_sync_tracker.Sync.Models.{SyncsFilter, SyncUpdate}
use osm_sync_tracker.Tables.{Db, SyncRow, Uuid, ChangesetRow, Date}
use osm_sync_tracker.Prelude.{ℕ, Bool, Option, List}
use osm_sync_tracker.Common.Db.{Transactor}
use osm_sync_tracker.Common.Lodash.{Lodash}
use osm_sync_tracker.Http.Syncs
use osm_sync_tracker.Http.Files
use osm_sync_tracker.Http.Entities
use osm_sync_tracker.Http.Changesets
use osm_sync_tracker.Http.Reply.{Reply}

pub data Request : Type 0 where
  -- /sync
  get_syncs : SyncsFilter → Request
  post_sync : SyncRow → Request
  get_latest_sync : ℕ → GeometryType → Request
  patch_sync : Uuid → SyncUpdate → Request
  post_file : Uuid → File → Request
  post_files : Uuid → List File → Request
  patch_file : Uuid → Uuid → FileUpdate → Request
  rerun_sync : Date → Uuid → Uuid → Date → Option Bool → Request
  -- /file
  post_entity : Uuid → Entity → Request
  post_entities : Uuid → List Entity → Request
  patch_entity : Uuid → Uuid → UpdateEntity → Request
  -- /entity
  patch_entities : List KeyedUpdate → Request
  -- /changeset
  post_changeset : Changeset → Request
  get_changeset : Uuid → Request
  patch_changeset : Uuid → UpdateChangeset → Request
  patch_changeset_entities : Uuid → Request

-- What a reply carries: a text, or the JSON of a value.
pub data Body : Type 0 where
  text : Body
  syncs : List SyncRow → Body
  sync : SyncRow → Body
  bulk_result : EntityBulkCreationResult → Body
  changeset : ChangesetRow → Body

abbrev pub with_body : {A : Type 0} → (A → Body) → Reply A × Db → Reply Body × Db
with_body f (Reply.sent c a, db) = (Reply.sent c (f a), db)
with_body f (Reply.next e c, db) = (Reply.next e c, db)

module _ (t : Transactor) (l : Lodash) where
  unfoldable pub serve : Request → Db → Reply Body × Db
  serve (Request.get_syncs f) db = with_body Body.syncs (Syncs.get_syncs f db)
  serve (Request.post_sync s) db = with_body (λ _. Body.text) (Syncs.post_sync s db)
  serve (Request.get_latest_sync layer g) db =
      with_body Body.sync (Syncs.get_latest_sync layer g db)
  serve (Request.patch_sync id u) db = with_body (λ _. Body.text) (Syncs.patch_sync id u db)
  serve (Request.post_file id f) db = with_body (λ _. Body.text) (Files.post_file id f db)
  serve (Request.post_files id fs) db = with_body (λ _. Body.text) (Files.post_files l id fs db)
  serve (Request.patch_file id file_id u) db =
      with_body (λ _. Body.text) (Files.patch_file id file_id u db)
  serve (Request.rerun_sync now id rerun_id start b) db =
      with_body (λ _. Body.text) (Syncs.rerun_sync t now id rerun_id start b db)
  serve (Request.post_entity id e) db = with_body (λ _. Body.text) (Entities.post_entity id e db)
  serve (Request.post_entities id es) db =
      with_body Body.bulk_result (Entities.post_entities l id es db)
  serve (Request.patch_entity id entity_id u) db =
      with_body (λ _. Body.text) (Entities.patch_entity id entity_id u db)
  serve (Request.patch_entities us) db =
      with_body (λ _. Body.text) (Entities.patch_entities l us db)
  serve (Request.post_changeset c) db = with_body (λ _. Body.text) (Changesets.post_changeset c db)
  serve (Request.get_changeset id) db = with_body Body.changeset (Changesets.get_changeset id db)
  serve (Request.patch_changeset id u) db =
      with_body (λ _. Body.text) (Changesets.patch_changeset id u db)
  serve (Request.patch_changeset_entities id) db =
      with_body (λ _. Body.text) (Changesets.patch_changeset_entities id db)
