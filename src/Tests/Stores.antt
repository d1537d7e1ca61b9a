-- ===== src/Tests/Stores.antt =====
-- Calls of the repositories on the small database.
use osm_sync_tracker.Store.View.{view}
use osm_sync_tracker.Store.Refines.{replay, call, replay-view}
use osm_sync_tracker.Prelude.{some, [], ◌∷◌, ◌≡◌, List}
use osm_sync_tracker.Common.Enums.{Status}
use osm_sync_tracker.Store.Spec.{Call, perform}
use osm_sync_tracker.Tests.Samples.{sync as sample_sync, open_db}

abbrev calls : List Call
calls =
    Call.create_sync (record (sample_sync Status.in_progress) { id = 2; base_sync_id = some 1 })
    ∷ Call.create_sync (sample_sync Status.in_progress)
    ∷ Call.update_changeset 50 (record { osm_id = some (some 9) })
    ∷ Call.complete_entities 50
    ∷ []

replay-view_example :
    ((replay call calls open_db).0 ≡ (replay perform calls (view open_db)).0)
    × (view (replay call calls open_db).1 ≡ (replay perform calls (view open_db)).1)
replay-view_example = replay-view calls open_db
