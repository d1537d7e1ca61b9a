-- ===== src/Sync/History.antt =====
-- What a rerun does to the history: the statements of `createRerun` in
-- src/sync/DAL/syncRepository.ts.
use osm_sync_tracker.Sync.Recorded.{recorded, rerun_steps-history}
use osm_sync_tracker.Sync.LastRun.{IsLastRun, latest_run_id-IsLastRun}
use osm_sync_tracker.Prelude.{
  ◌&&◌, ◌||◌, not, all, contains, option_eq, ==→eq, Bool, true, false, ◌==◌, none, some, List, [],
  ◌∷◌, ◌++◌, ◌≡◌, refl, ap, ◌∙◌, arith, map, filter, any, if◌then◌else◌, inl, inr,
}
use osm_sync_tracker.Common.Action.{ok}
use osm_sync_tracker.Common.Enums.{EntityStatus, entity_status_eq}
use osm_sync_tracker.Sync.Effects.{stands_in}
use osm_sync_tracker.Sync.Deletion.{delete_empty_files-entities, left_files, have_files}
use osm_sync_tracker.Common.Db.{rename_failure, Transactor, IsolationLevel}
use osm_sync_tracker.Common.Transactions.{run-cases}
use osm_sync_tracker.Tables.{EntityRow, FileRow, Uuid, Db, Date, EntityHistoryRow, SyncRow}
use osm_sync_tracker.Sync.Models.{CreateRerunRequest}
use osm_sync_tracker.Sync.Repository.{find_one_sync_with_last_rerun, find_one_sync}
use osm_sync_tracker.Sync.Rerun.{
  is_run_of, is_empty_file, has_entity, was_completed, delete_empty_files, latest_run_id,
  create_rerun, rerun_body, is_for_history,
}

-- The file is one of the sync, and no entity is in it.
abbrev pub is_deleted : Uuid → Db → Uuid → Bool
is_deleted base db file_id =
    any (λ f. f.file_id == file_id && f.sync_id == base) db.files
    && not (any (λ e. e.file_id == file_id) db.entities)

-- The rows of the history whose file stays.
abbrev pub remaining : Uuid → Db → List EntityHistoryRow
remaining base db = filter (λ h. not (is_deleted base db h.file_id)) db.history

-- The id is that of the sync or of one of its reruns.
abbrev pub is_run : Uuid → Db → Uuid → Bool
is_run base db id =
    id == base || any (λ s. s.id == id && option_eq ◌==◌ s.base_sync_id (some base)) db.syncs

abbrev pub is_completed : EntityStatus → Bool
is_completed EntityStatus.completed = true
is_completed _ = false

abbrev pub is_waiting : EntityStatus → Bool
is_waiting EntityStatus.in_rerun = true
is_waiting _ = false

-- An entity of the sync that neither waits for a rerun nor was completed in a run of the sync.
abbrev pub is_recorded : Uuid → Db → EntityRow → Bool
is_recorded base db e =
    stands_in base db e
    && not (is_waiting e.status)
    && not (
        any (λ h. h.entity_id == e.entity_id && is_run base db h.sync_id && is_completed h.status)
          (remaining base db))

-- The entity as it is, under a run of the sync.
abbrev pub record_of : Uuid → Uuid → EntityRow → EntityHistoryRow
record_of base run e = record {
  sync_id = run;
  base_sync_id = if run == base then none else some base;
  entity_id = e.entity_id;
  file_id = e.file_id;
  changeset_id = e.changeset_id;
  status = e.status;
  action = e.action;
  fail_reason = e.fail_reason;
}

module _ {A : Type 0} where
  filter-pointwise :
      (good p q : A → Bool) (xs : List A)
      → ((x : A) → good x ≡ true → p x ≡ q x)
      → all good xs ≡ true
      → filter p xs ≡ filter q xs
  filter-pointwise good p q [] same h = refl
  filter-pointwise good p q (x ∷ xs) same h =
      ground (arith, same x, filter-pointwise good p q xs same)

  all-trivial : (xs : List A) → all (λ x. true) xs ≡ true
  all-trivial [] = refl
  all-trivial (x ∷ xs) = ground (arith, all-trivial xs)

  any-pointwise : (p q : A → Bool) (xs : List A) → ((x : A) → p x ≡ q x) → any p xs ≡ any q xs
  any-pointwise p q [] same = refl
  any-pointwise p q (x ∷ xs) same = ground (arith, same x, any-pointwise p q xs same)

module _ (base : Uuid) (db : Db) where
  deleted_ids :
      (id : Uuid) (fs : List FileRow)
      → contains id (map (λ f. f.file_id) (filter (is_empty_file base db) fs))
        ≡ (any (λ f. f.file_id == id && f.sync_id == base) fs && not (has_entity db id))
  deleted_ids id [] = ground arith
  deleted_ids id (f ∷ fs) = ground (
    arith,
    deleted_ids id fs,
    λ (h : (f.file_id == id) ≡ true). ap (has_entity db) (==→eq f.file_id id h),
  )

  kept-history : (delete_empty_files base db).1.history ≡ remaining base db
  unfolding delete_empty_files
  kept-history =
      filter-pointwise (λ h. true) _ _ db.history (λ h k. ap not (deleted_ids h.file_id db.files))
        (all-trivial db.history)

  was_completed-kept :
      (e : EntityRow)
      → was_completed base (delete_empty_files base db).1 e
        ≡ any
            (λ h. h.entity_id == e.entity_id && is_run base db h.sync_id && is_completed h.status)
            (remaining base db)
  unfolding delete_empty_files
  was_completed-kept e =
      let kept = (delete_empty_files base db).1 in
      let p = λ (h : EntityHistoryRow).
        h.entity_id == e.entity_id
        && is_run_of base kept h.sync_id
        && entity_status_eq h.status EntityStatus.completed in
      ap (any p) kept-history ∙ any-pointwise p _ (remaining base db) (λ h. ground arith)

  recorded-kept :
      recorded base (delete_empty_files base db).1
      ≡ map (record_of base (latest_run_id base db)) (filter (is_recorded base db) db.entities)
  unfolding delete_empty_files find_one_sync_with_last_rerun find_one_sync
  recorded-kept =
      let kept = (delete_empty_files base db).1 in
      let row = record_of base (latest_run_id base db) in
      ap (λ es. map row (filter (is_for_history base kept) es))
        (delete_empty_files-entities base db)
      ∙ ap (map row) (
          filter-pointwise (λ e. has_entity db e.file_id) _ _ db.entities
            (λ e h. ground (arith, left_files base db e db.files h, was_completed-kept e))
            (have_files db.entities db.entities (λ id h. h)))

create_rerun-records :
    (t : Transactor) (now : Date) (r : CreateRerunRequest) (base : Uuid) (db : Db)
    → r.sync.base_sync_id ≡ some base
    → (create_rerun t now r db).0 ≡ ok true
    → let kept = (delete_empty_files base db).1 in
      (create_rerun t now r db).1.history ≡ kept.history ++ recorded base kept
unfolding create_rerun rename_failure rerun_body
create_rerun-records t now r base db given h =
    let body = rerun_body now r.should_rerun_not_synced r.sync in
    elim (run-cases t IsolationLevel.serializable body db) [
      | inl committed ↦ ground (
        arith,
        h,
        committed,
        given,
        rerun_steps-history base now r.should_rerun_not_synced r.sync db,
      )
      | inr (e, failed) ↦ ground (arith, h, failed)
    ]

-- A rerun of a stored sync that is created leaves the history as it is, but for the rows of files
-- of the sync without an entity, and records behind it each entity of the sync's files that neither
-- waits for a rerun already nor was completed in a run of the sync: with the columns it had before
-- the rerun, and under the last run of the sync.
pub create_rerun_history :
    (t : Transactor) (now : Date) (r : CreateRerunRequest) (base : Uuid) (s : SyncRow) (db : Db)
    → r.sync.base_sync_id ≡ some base
    → find_one_sync base db ≡ some s
    → (create_rerun t now r db).0 ≡ ok true
    → (run : Uuid) × IsLastRun base db run
      × ((create_rerun t now r db).1.history
          ≡ remaining base db
            ++ map (record_of base run) (filter (is_recorded base db) db.entities))
create_rerun_history t now r base s db given found h = (
  latest_run_id base db,
  latest_run_id-IsLastRun base db s found,
  create_rerun-records t now r base db given h
      ∙ ap (λ rows. rows ++ recorded base (delete_empty_files base db).1) (kept-history base db)
      ∙ ap (λ rows. remaining base db ++ rows) (recorded-kept base db),
)
