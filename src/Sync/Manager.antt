-- ===== src/Sync/Manager.antt =====
-- src/sync/models/syncManager.ts, but for the closures.
use text.Mathlib.Text.{◌==◌ as str_eq}
use osm_sync_tracker.Prelude.{
  ℕ, ◌+◌, Bool, true, false, not, ◌||◌, Option, none, some, get_or, List, [], ◌∷◌, ◌++◌, filter,
  any, length, ltb, is_some, ◌==◌, patch,
}
use osm_sync_tracker.Common.Enums.{Status, GeometryType, status_eq}
use osm_sync_tracker.Common.Errors.{SyncError, sync_error}
use osm_sync_tracker.Common.Action.{Action, pure, gets, throw_if, or_throw, ◌>>=◌, ◌>>◌}
use osm_sync_tracker.Common.Db.{Transactor}
use osm_sync_tracker.Tables.{Uuid, Date, Metadata, SyncRow, Db}
use osm_sync_tracker.Sync.Models.{
  SyncUpdate, SyncWithReruns, CreateRerunRequest, SyncsFilter, PartialSync,
}
use osm_sync_tracker.Sync.Repository
use osm_sync_tracker.Sync.Rerun.{create_rerun}

unfoldable pub get_syncs : SyncsFilter → Action Db (List SyncRow)
get_syncs f = gets (Repository.filter_syncs f)

unfoldable pub get_latest_sync : ℕ → GeometryType → Action Db SyncRow
get_latest_sync layer_id geometry_type = do
  latest ← gets (Repository.get_latest_sync layer_id geometry_type)
  or_throw latest (sync_error SyncError.sync_not_found)

abbrev pub full_syncs_like : SyncRow → PartialSync
full_syncs_like s = record {
  layer_id = some s.layer_id;
  geometry_type = some s.geometry_type;
  is_full = some s.is_full;
  base_sync_id = none;
}

-- The check that only a full sync undergoes.
abbrev pub check_full : SyncRow → Action Db Unit
check_full sync db = elim sync.is_full [
  | true ↦
      throw_if (ltb 0 (length (Repository.find_syncs (full_syncs_like sync) db)))
        (sync_error SyncError.full_sync_already_exists) db
  | false ↦ pure tt db
]

unfoldable pub create_sync : SyncRow → Action Db Unit
create_sync sync = do
  existing ← gets (Repository.find_one_sync sync.id)
  throw_if (is_some existing) (sync_error SyncError.sync_already_exists)
  check_full sync
  Repository.create_sync sync

-- `{ ...a, ...b }`, where null spreads to nothing.
abbrev pub spread : Option Metadata → Option Metadata → Metadata
spread a b =
    let old = get_or a [] in
    let new = get_or b [] in filter (λ (k, _). not (any (λ (j, _). str_eq j k) new)) old ++ new

unfoldable pub update_sync : Uuid → SyncUpdate → Action Db Unit
update_sync sync_id update = do
  found ← gets (Repository.find_one_sync sync_id)
  current ← or_throw found (sync_error SyncError.sync_not_found)
  Repository.update_sync sync_id (record update {
    metadata = some (some (spread current.metadata (patch update.metadata none)));
  })

-- The number of the next run, or a throw where the last rerun has not failed.
abbrev pub next_run_number : List SyncRow → Action Db ℕ
next_run_number [] = pure 1
next_run_number (latest ∷ _) = do
  throw_if (not (status_eq latest.status Status.failed))
      (sync_error SyncError.invalid_sync_for_rerun)
  pure (latest.run_number + 1)

abbrev pub rerun_of : SyncRow → Uuid → ℕ → Date → SyncRow
rerun_of base rerun_id run_number start_date = record base {
  id = rerun_id;
  base_sync_id = some base.id;
  run_number = run_number;
  status = Status.in_progress;
  start_date = start_date;
  end_date = none;
}

-- The request for the next run, once the number of the run is known.
abbrev pub rerun_request : SyncRow → Uuid → Date → Option Bool → ℕ → CreateRerunRequest
rerun_request base rerun_id start_date should_rerun_not_synced run_number = record {
  sync = rerun_of base rerun_id run_number start_date;
  should_rerun_not_synced = get_or should_rerun_not_synced false;
}

-- What is left to do once the base sync has been found.
unfoldable pub rerun_found_sync :
    Transactor → Date → Uuid → Date → Option Bool → SyncWithReruns → Action Db Bool
rerun_found_sync t now rerun_id start_date should_rerun_not_synced base = do
  throw_if (not (base.sync.run_number == 0) || not (status_eq base.sync.status Status.failed))
      (sync_error SyncError.invalid_sync_for_rerun)
  run_number ← next_run_number base.reruns
  create_rerun t now
      (rerun_request base.sync rerun_id start_date should_rerun_not_synced run_number)

unfoldable pub rerun_sync_if_needed :
    Transactor → Date → Uuid → Uuid → Date → Option Bool → Action Db Bool
rerun_sync_if_needed t now sync_id rerun_id start_date should_rerun_not_synced = do
  existing ← gets (Repository.find_one_sync rerun_id)
  throw_if (is_some existing) (sync_error SyncError.rerun_already_exists)
  found ← gets (Repository.find_one_sync_with_last_rerun sync_id)
  base ← or_throw found (sync_error SyncError.sync_not_found)
  rerun_found_sync t now rerun_id start_date should_rerun_not_synced base
