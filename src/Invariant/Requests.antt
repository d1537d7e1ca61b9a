-- ===== src/Invariant/Requests.antt =====
-- Requests that fail, whatever the route: src/*/controllers over src/*/models.
use osm_sync_tracker.Prelude.{◌≡◌, arith, Option, false}
use osm_sync_tracker.Common.Db.{Transactor}
use osm_sync_tracker.Common.Lodash.{Lodash}
use osm_sync_tracker.Common.Errors.{Error}
use osm_sync_tracker.Tables.{Db}
use osm_sync_tracker.Http.Reply.{Reply, StatusCode}
use osm_sync_tracker.Http.Routes.{Request, serve}
use osm_sync_tracker.Sync.Manager.{get_syncs, get_latest_sync}
use osm_sync_tracker.Changeset.Manager.{get_changeset}
use osm_sync_tracker.Http.Syncs
use osm_sync_tracker.Http.Files
use osm_sync_tracker.Http.Entities
use osm_sync_tracker.Http.Changesets
use osm_sync_tracker.Invariant.Atomic.{
  create_sync-IsAtomic, update_sync-IsAtomic, rerun_sync_if_needed-IsAtomic, create_file-IsAtomic,
  create_files-IsAtomic, update_file-IsAtomic, create_entity-IsAtomic, create_entities-IsAtomic,
  update_entity-IsAtomic, update_entities-IsAtomic, create_changeset-IsAtomic,
  update_changeset-IsAtomic, update_changeset_entities-IsAtomic,
}

module _ (t : Transactor) (l : Lodash) where
  -- A request that ends in an error, of whatever kind and on whatever route, leaves the database as
  -- it was, if no call on a repository's own manager stays written when a transaction fails.
  pub serve_atomic :
      (r : Request) (db : Db) (e : Error) (status : Option StatusCode)
      → t.keeps_own db ≡ false
      → (serve t l r db).0 ≡ Reply.next e status
      → (serve t l r db).1 ≡ db
  unfolding serve Syncs.get_syncs Syncs.post_sync Syncs.get_latest_sync Syncs.patch_sync
      Syncs.rerun_sync Files.post_file Files.post_files Files.patch_file Entities.post_entity
      Entities.post_entities Entities.patch_entity Entities.patch_entities Changesets.post_changeset
      Changesets.get_changeset Changesets.patch_changeset Changesets.patch_changeset_entities
      get_syncs get_latest_sync get_changeset
  serve_atomic (Request.post_sync s) db e status joined h =
      ground (arith, create_sync-IsAtomic s db e)
  serve_atomic (Request.patch_sync id u) db e status joined h =
      ground (arith, update_sync-IsAtomic id u db e)
  serve_atomic (Request.rerun_sync now id r start b) db e status joined h =
      ground (arith, rerun_sync_if_needed-IsAtomic t now id r start b db e joined)
  serve_atomic (Request.post_file id f) db e status joined h =
      ground (arith, create_file-IsAtomic id f db e)
  serve_atomic (Request.post_files id fs) db e status joined h =
      ground (arith, create_files-IsAtomic l id fs db e)
  serve_atomic (Request.patch_file id f u) db e status joined h =
      ground (arith, update_file-IsAtomic id f u db e)
  serve_atomic (Request.post_entity id x) db e status joined h =
      ground (arith, create_entity-IsAtomic id x db e)
  serve_atomic (Request.post_entities id xs) db e status joined h =
      ground (arith, create_entities-IsAtomic l id xs db e)
  serve_atomic (Request.patch_entity id x u) db e status joined h =
      ground (arith, update_entity-IsAtomic id x u db e)
  serve_atomic (Request.patch_entities us) db e status joined h =
      ground (arith, update_entities-IsAtomic l us db e)
  serve_atomic (Request.post_changeset c) db e status joined h =
      ground (arith, create_changeset-IsAtomic c db e)
  serve_atomic (Request.patch_changeset id u) db e status joined h =
      ground (arith, update_changeset-IsAtomic id u db e)
  serve_atomic (Request.patch_changeset_entities id) db e status joined h =
      ground (arith, update_changeset_entities-IsAtomic id db e)
  serve_atomic (Request.get_syncs f) db e status joined h = ground arith
  serve_atomic (Request.get_latest_sync n g) db e status joined h = ground arith
  serve_atomic (Request.get_changeset id) db e status joined h = ground arith
