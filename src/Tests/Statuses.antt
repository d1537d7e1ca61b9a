-- ===== src/Tests/Statuses.antt =====
-- A request that is refused, and the update of an entity in a file that is not there.
use osm_sync_tracker.Tests.Samples.{open_db}
use osm_sync_tracker.Tables.{Db}
use osm_sync_tracker.Http.Statuses.{IsForeign, is_own, is_missed, serve_status}
use osm_sync_tracker.Tests.Instances.{alone, lodash}
use osm_sync_tracker.Entity.Models.{UpdateEntity}
use osm_sync_tracker.Common.Action.{Action, err}
use osm_sync_tracker.Prelude.{none, refl, ◌≡◌, false, ◌&&◌, not, is_some, inl, arith, ◌⊎◌}
use osm_sync_tracker.Common.Errors.{Error, file_error, FileError}
use osm_sync_tracker.Common.Db.{IsolationLevel}
use osm_sync_tracker.Http.Reply.{Reply, StatusCode}
use osm_sync_tracker.Http.Routes.{Request, serve}
use osm_sync_tracker.Http.Entities
use osm_sync_tracker.Entity.Manager
use osm_sync_tracker.File.Repository

alone_fails :
    (A : Type 0) (level : IsolationLevel) (m : Action Db A) (db : Db) (e : Error)
    → (alone.run level m db).0 ≡ err e
    → ((m db).0 ≡ err e) ⊎ (is_own e ≡ false)
alone_fails A level m db e h = inl (ground (arith, h))

alone-IsForeign : IsForeign alone
alone-IsForeign = record { fails = alone_fails }

abbrev update : UpdateEntity
update = record { changeset_id = none; status = none; action = none; fail_reason = none }

abbrev of_missing_file : Request
of_missing_file = Request.patch_entity 77 100 update

missed :
    (serve alone lodash of_missing_file open_db).0
    ≡ Reply.next (file_error FileError.file_not_found) none
unfolding serve Entities.patch_entity Manager.update_entity Repository.find_one_file
missed = refl

serve_status_example : is_some {A = StatusCode} none ≡ (
    is_own (file_error FileError.file_not_found)
    && not (is_missed of_missing_file (file_error FileError.file_not_found)))
serve_status_example =
    serve_status alone lodash of_missing_file open_db (file_error FileError.file_not_found) none
      alone-IsForeign missed
