-- ===== src/Sync/Repository.antt =====
-- src/sync/DAL/syncRepository.ts, but for the rerun transaction.
use text.Mathlib.Text.{◌==◌ as str_eq}
use osm_sync_tracker.Prelude.{
  ℕ, Bool, true, false, not, ◌&&◌, ◌||◌, Option, none, some, List, [], ◌∷◌, map, filter, any, find,
  count, first_by, patch, update_where, ltb, ◌==◌, if◌then◌else◌, option_eq,
}
use osm_sync_tracker.Common.Enums.{Status, GeometryType, status_eq, geometry_type_eq}
use osm_sync_tracker.Common.Errors.{Error, SqlState}
use osm_sync_tracker.Common.Action.{Action, ok, err, attempt}
use osm_sync_tracker.Common.Db.{ReturningResult}
use osm_sync_tracker.Tables.{
  Uuid, Date, Json, Metadata, SyncRow, Db, same_sync, has_sync, sync_refers, nullable, insert_rows,
}
use osm_sync_tracker.Sync.Models.{
  gives_columns, SyncUpdate, SyncWithReruns, SyncsFilter, PartialSync,
}

-- `metadata @> '{"isFixDiff": "true"}'`
abbrev is_true_str : Json → Bool
is_true_str (Json.str s) = str_eq s "true"
is_true_str _ = false

abbrev pub is_fix_diff : Metadata → Bool
is_fix_diff m = any (λ (k, v). str_eq k "isFixDiff" && is_true_str v) m

-- `not(metadata @> …) or metadata is null or status = 'failed'`
abbrev pub counts_as_latest : SyncRow → Bool
counts_as_latest s = elim s.metadata [
  | none ↦ true
  | some m ↦ not (is_fix_diff m) || status_eq s.status Status.failed
]

-- `ORDER BY dump_date DESC, start_date DESC`
abbrev pub is_later : SyncRow → SyncRow → Bool
is_later a b =
    ltb b.dump_date a.dump_date || (a.dump_date == b.dump_date && ltb b.start_date a.start_date)

abbrev pub is_latest_candidate : ℕ → GeometryType → SyncRow → Bool
is_latest_candidate layer_id geometry_type s =
    s.layer_id == layer_id
    && geometry_type_eq s.geometry_type geometry_type
    && s.run_number == 0
    && counts_as_latest s

unfoldable pub get_latest_sync : ℕ → GeometryType → Db → Option SyncRow
get_latest_sync layer_id geometry_type db =
    first_by is_later (filter (is_latest_candidate layer_id geometry_type) db.syncs)

unfoldable pub create_sync : SyncRow → Action Db Unit
create_sync sync = attempt λ db.
    elim (insert_rows same_sync (sync_refers db) (sync ∷ []) db.syncs) [
      | ok syncs ↦ ok (tt, record db { syncs = syncs })
      | err e ↦ err e
    ]

-- `UPDATE sync SET …` with the columns that are given.
abbrev pub patch_sync : SyncUpdate → SyncRow → SyncRow
patch_sync u s = record s {
  dump_date = patch u.dump_date s.dump_date;
  start_date = patch u.start_date s.start_date;
  end_date = patch u.end_date s.end_date;
  status = patch u.status s.status;
  layer_id = patch u.layer_id s.layer_id;
  total_files = patch u.total_files s.total_files;
  geometry_type = patch u.geometry_type s.geometry_type;
  base_sync_id = patch u.base_sync_id s.base_sync_id;
  run_number = patch u.run_number s.run_number;
  metadata = patch u.metadata s.metadata;
}

-- An update that gives no column is an error. A reference is checked where a row is written.
unfoldable pub update_sync : Uuid → SyncUpdate → Action Db Unit
update_sync sync_id update = attempt λ db.
    if not (gives_columns update)
    then err Error.other_error
    else (if not (has_sync db sync_id) || nullable (has_sync db) (patch update.base_sync_id none)
        then ok (
          tt,
          record db { syncs = update_where (λ s. s.id == sync_id) (patch_sync update) db.syncs },
        )
        else err (Error.query_failed (some SqlState.foreign_key_violation)))

unfoldable pub find_one_sync : Uuid → Db → Option SyncRow
find_one_sync sync_id db = find (λ s. s.id == sync_id) db.syncs

-- A condition that is left out holds of every row.
abbrev pub when_given {ℓ} : {A : Type ℓ} → (A → Bool) → Option A → Bool
when_given p none = true
when_given p (some a) = p a

abbrev pub bool_eq : Bool → Bool → Bool
bool_eq true b = b
bool_eq false b = not b

unfoldable pub find_syncs : PartialSync → Db → List SyncRow
find_syncs p db =
    filter
      (λ s.
        when_given (λ l. s.layer_id == l) p.layer_id
        && when_given (geometry_type_eq s.geometry_type) p.geometry_type
        && when_given (bool_eq s.is_full) p.is_full
        && when_given (λ b. option_eq ◌==◌ s.base_sync_id (some b)) p.base_sync_id)
      db.syncs

abbrev pub passes_filter : SyncsFilter → SyncRow → Bool
passes_filter f s =
    when_given (any (status_eq s.status)) f.status
    && when_given (any (λ l. s.layer_id == l)) f.layer_id
    && when_given (any (geometry_type_eq s.geometry_type)) f.geometry_type
    && when_given (bool_eq s.is_full) f.is_full
    && when_given (λ r. if r then ltb 0 s.run_number else s.run_number == 0) f.is_rerun

unfoldable pub filter_syncs : SyncsFilter → Db → List SyncRow
filter_syncs f db = filter (passes_filter f) db.syncs

abbrev pub is_rerun_of : Uuid → SyncRow → Bool
is_rerun_of sync_id s = option_eq ◌==◌ s.base_sync_id (some sync_id)

abbrev pub runs_after : SyncRow → SyncRow → Bool
runs_after a b = ltb b.run_number a.run_number

-- The joined rows are limited to one, so there is at most one rerun: the last.
abbrev pub last_rerun : Uuid → Db → List SyncRow
last_rerun sync_id db = elim (first_by runs_after (filter (is_rerun_of sync_id) db.syncs)) [
  | none ↦ []
  | some r ↦ r ∷ []
]

unfoldable pub find_one_sync_with_last_rerun : Uuid → Db → Option SyncWithReruns
find_one_sync_with_last_rerun sync_id db = elim (find_one_sync sync_id db) [
  | none ↦ none
  | some s ↦ some (record { sync = s; reruns = last_rerun sync_id db })
]

-- `CLOSED_PARAMS`, where `now` is LOCALTIMESTAMP.
abbrev pub close_sync : Date → SyncRow → SyncRow
close_sync now s = record s { status = Status.completed; end_date = some now }

abbrev pub completed_files : Uuid → Db → ℕ
completed_files sync_id db =
    count (λ f. f.sync_id == sync_id && status_eq f.status Status.completed) db.files

-- The `WHERE` of the closure.
abbrev pub is_up_for_closure : Uuid → Db → SyncRow → Bool
is_up_for_closure sync_id db s =
    ((s.id == sync_id && not (status_eq s.status Status.completed))
      || (is_rerun_of sync_id s && status_eq s.status Status.in_progress))
    && option_eq ◌==◌ s.total_files (some (completed_files sync_id db))

unfoldable pub attempt_sync_closure : Date → Uuid → Action Db (ReturningResult Uuid)
attempt_sync_closure now sync_id db =
    let closed = is_up_for_closure sync_id db in
    let ids = map (λ s. s.id) (filter closed db.syncs) in
    (
      ok (ids, count closed db.syncs),
      record db { syncs = update_where closed (close_sync now) db.syncs },
    )
