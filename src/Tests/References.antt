-- ===== src/Tests/References.antt =====
-- A rerun on the small database, and a changeset that is created once more.
use osm_sync_tracker.Tests.Instances.{alone, lodash}
use osm_sync_tracker.Tests.Samples.{failed_db}
use osm_sync_tracker.Invariant.Reach.{Reach, Step}
use osm_sync_tracker.Invariant.Guards.{serve_creation, is_of_database}
use osm_sync_tracker.Common.Errors.{changeset_error, ChangesetError}
use osm_sync_tracker.Http.Reply.{Reply, StatusCode}
use osm_sync_tracker.Http.Syncs as SyncRoutes
use osm_sync_tracker.Http.Changesets as ChangesetRoutes
use osm_sync_tracker.Changeset.Manager.{create_changeset}
use osm_sync_tracker.Changeset.Repository.{find_one_changeset}
use osm_sync_tracker.Tables.{Db}
use osm_sync_tracker.Tables.References.{IsReferring}
use osm_sync_tracker.Prelude.{none, some, false, refl, ◌≡◌}
use osm_sync_tracker.Http.Routes.{serve, Request}

abbrev rerun : Request
rerun = Request.rerun_sync 900 1 2 800 none

abbrev after_rerun : Db
after_rerun = (serve alone lodash rerun failed_db).1

failed_db-IsReferring : IsReferring failed_db
failed_db-IsReferring = record { syncs = refl; files = refl; entities = refl; history = refl }

-- A changeset that is there is created once more, after the rerun.
abbrev creation : Request
creation = Request.post_changeset (record { changeset_id = 50; osm_id = none })

refused :
    (serve alone lodash creation after_rerun).0
    ≡ Reply.next
        (changeset_error ChangesetError.changeset_already_exists)
        (some StatusCode.conflict_409)
unfolding serve SyncRoutes.rerun_sync ChangesetRoutes.post_changeset create_changeset
    find_one_changeset osm_sync_tracker.Sync.Manager.rerun_sync_if_needed
    osm_sync_tracker.Sync.Repository.find_one_sync
    osm_sync_tracker.Sync.Repository.find_one_sync_with_last_rerun
    osm_sync_tracker.Sync.Manager.rerun_found_sync osm_sync_tracker.Sync.Rerun.create_rerun
    osm_sync_tracker.Sync.Rerun.rerun_body osm_sync_tracker.Sync.Rerun.rerun_steps
    osm_sync_tracker.Sync.Rerun.delete_empty_files osm_sync_tracker.Sync.Rerun.prepare_rerun
    osm_sync_tracker.Sync.Rerun.create_entity_history osm_sync_tracker.Sync.Repository.create_sync
    osm_sync_tracker.Sync.Rerun.prepare_incomplete_entities
    osm_sync_tracker.Sync.Rerun.update_dangling_files_as_completed
refused = refl

serve_creation_example :
    is_of_database (changeset_error ChangesetError.changeset_already_exists) ≡ false
serve_creation_example =
    serve_creation alone lodash creation (changeset_error ChangesetError.changeset_already_exists)
      (some StatusCode.conflict_409) failed_db-IsReferring
      (Reach.next Reach.here (Step.request rerun refl)) refl refused
