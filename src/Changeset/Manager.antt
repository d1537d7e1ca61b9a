-- ===== src/Changeset/Manager.antt =====
-- src/changeset/models/changesetManager.ts, but for the closures.
use osm_sync_tracker.Prelude.{is_some}
use osm_sync_tracker.Common.Errors.{ChangesetError, changeset_error}
use osm_sync_tracker.Common.Action.{Action, gets, throw_if, or_throw, ◌>>=◌, ◌>>◌}
use osm_sync_tracker.Tables.{Uuid, ChangesetRow, Db}
use osm_sync_tracker.Changeset.Models.{Changeset, UpdateChangeset}
use osm_sync_tracker.Changeset.Repository

unfoldable pub create_changeset : Changeset → Action Db Unit
create_changeset changeset = do
  existing ← gets (Repository.find_one_changeset changeset.changeset_id)
  throw_if (is_some existing) (changeset_error ChangesetError.changeset_already_exists)
  Repository.create_changeset changeset

unfoldable pub get_changeset : Uuid → Action Db ChangesetRow
get_changeset changeset_id = do
  existing ← gets (Repository.find_one_changeset changeset_id)
  or_throw existing (changeset_error ChangesetError.changeset_not_found)

unfoldable pub update_changeset : Uuid → UpdateChangeset → Action Db Unit
update_changeset changeset_id update = do
  existing ← gets (Repository.find_one_changeset changeset_id)
  or_throw existing (changeset_error ChangesetError.changeset_not_found)
  Repository.update_changeset changeset_id update

unfoldable pub update_changeset_entities : Uuid → Action Db Unit
update_changeset_entities changeset_id = do
  existing ← gets (Repository.find_one_changeset changeset_id)
  or_throw existing (changeset_error ChangesetError.changeset_not_found)
  Repository.update_entities_of_changeset_as_completed changeset_id
