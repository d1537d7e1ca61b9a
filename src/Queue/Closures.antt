-- ===== src/Queue/Closures.antt =====
-- `createClosures` of src/sync/models/syncManager.ts, src/file/models/fileManager.ts and
-- src/changeset/models/changesetManager.ts.
use osm_sync_tracker.Prelude.{not, List, [], ◌∷◌, map, filter, ◌==◌}
use osm_sync_tracker.Common.Action.{Action}
use osm_sync_tracker.Tables.{Uuid}
use osm_sync_tracker.Queue.Types.{JobQueueProvider, ClosureKind, closure_job}

-- `Array.from(new Set(ids))`: the first of equal ids, in order.
abbrev pub unique : List Uuid → List Uuid
unique [] = []
unique (x ∷ xs) = x ∷ filter (λ y. not (x == y)) (unique xs)

module _ {Q : Type 0} (queue : JobQueueProvider Q) where
  unfoldable pub create_sync_closures : List Uuid → Action Q Unit
  create_sync_closures sync_ids = queue.push (map (closure_job ClosureKind.sync) (unique sync_ids))

  unfoldable pub create_file_closures : List Uuid → Action Q Unit
  create_file_closures file_ids = queue.push (map (closure_job ClosureKind.file) (unique file_ids))

  unfoldable pub create_changeset_closures : List Uuid → Action Q Unit
  create_changeset_closures changeset_ids =
      queue.push (map (closure_job ClosureKind.changeset) (unique changeset_ids))
