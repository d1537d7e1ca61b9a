-- ===== src/Http/Changesets.antt =====
-- src/changeset/controllers/changesetController.ts.
use osm_sync_tracker.Prelude.{Option, none, some, List}
use osm_sync_tracker.Common.Errors.{Error, ChangesetError, changeset_error}
use osm_sync_tracker.Tables.{Uuid, ChangesetRow, Db}
use osm_sync_tracker.Changeset.Models.{Changeset, UpdateChangeset}
use osm_sync_tracker.Changeset.Manager
use osm_sync_tracker.Queue.Types.{JobQueueProvider}
use osm_sync_tracker.Queue.Closures.{create_changeset_closures}
use osm_sync_tracker.Http.Reply.{StatusCode, Reply, respond, no_status}

abbrev pub if_changeset_exists : Error → Option StatusCode
if_changeset_exists (changeset_error ChangesetError.changeset_already_exists) =
    some StatusCode.conflict_409
if_changeset_exists _ = none

abbrev pub if_changeset_not_found : Error → Option StatusCode
if_changeset_not_found (changeset_error ChangesetError.changeset_not_found) =
    some StatusCode.not_found_404
if_changeset_not_found _ = none

unfoldable pub post_changeset : Changeset → Db → Reply Unit × Db
post_changeset body =
    respond (λ _. StatusCode.created_201) if_changeset_exists (Manager.create_changeset body)

unfoldable pub get_changeset : Uuid → Db → Reply ChangesetRow × Db
get_changeset changeset_id =
    respond (λ _. StatusCode.ok_200) if_changeset_not_found (Manager.get_changeset changeset_id)

unfoldable pub patch_changeset : Uuid → UpdateChangeset → Db → Reply Unit × Db
patch_changeset changeset_id body =
    respond (λ _. StatusCode.ok_200) if_changeset_not_found
      (Manager.update_changeset changeset_id body)

unfoldable pub patch_changeset_entities : Uuid → Db → Reply Unit × Db
patch_changeset_entities changeset_id =
    respond (λ _. StatusCode.ok_200) if_changeset_not_found
      (Manager.update_changeset_entities changeset_id)

unfoldable pub post_changesets_closure :
    {Q : Type 0} → JobQueueProvider Q → List Uuid → Q → Reply Unit × Q
post_changesets_closure queue body =
    respond (λ _. StatusCode.created_201) no_status (create_changeset_closures queue body)
