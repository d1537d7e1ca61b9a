-- ===== src/Sync/Recorded.antt =====
-- The statements of `createRerun` in src/sync/DAL/syncRepository.ts, and the rows that they add to the
-- history.
use osm_sync_tracker.Prelude.{
  Bool, true, false, ◌==◌, Option, none, some, List, [], ◌∷◌, ◌++◌, ◌≡◌, refl, ap, ◌∙◌, arith, map,
  filter, any, count, update_where-none, if◌then◌else◌,
}
use osm_sync_tracker.Common.Action.{ok}
use osm_sync_tracker.Tables.{Uuid, Db, Date, EntityHistoryRow, SyncRow}
use osm_sync_tracker.Sync.Repository.{create_sync, close_sync}
use osm_sync_tracker.Sync.Rerun.{
  delete_empty_files, update_dangling_files_as_completed, prepare_incomplete_files,
  create_entity_history, prepare_rerun, prepare_incomplete_entities, latest_run_id,
  try_closing_sync, rerun_steps, history_row, is_for_history, is_closable_base, statuses_for_rerun,
}

count-zero : {A : Type 0} (p : A → Bool) (xs : List A) → count p xs ≡ 0 → any p xs ≡ false
count-zero p [] h = refl
count-zero p (x ∷ xs) h = ground (arith, count-zero p xs)

module _ (base : Uuid) where
  -- The rows that record the entities of the sync, as they are before the rerun. They stand under the
  -- last run of the sync, and refer to the sync where that is a rerun.
  abbrev pub recorded : Db → List EntityHistoryRow
  recorded db =
      let latest = latest_run_id base db in
      map (history_row latest (if latest == base then none else some base))
        (filter (is_for_history base db) db.entities)

  create_entity_history_lem :
      (run : Uuid) (history_base : Option Uuid) (db : Db)
      → (create_entity_history base run history_base db).0 ≡ ok tt
      → (create_entity_history base run history_base db).1.history
        ≡ db.history
          ++ map (history_row run history_base) (filter (is_for_history base db) db.entities)
  unfolding create_entity_history
  create_entity_history_lem run history_base db h = ground (arith, h)

  create_sync-history : (s : SyncRow) (db : Db) → (create_sync s db).1.history ≡ db.history
  unfolding create_sync
  create_sync-history s db = ground arith

  prepare_rerun-history :
      (now : Date) (b : Bool) (rerun : SyncRow) (db : Db)
      → (prepare_rerun now base b rerun db).0 ≡ ok true
      → (prepare_rerun now base b rerun db).1.history ≡ db.history ++ recorded db
  unfolding prepare_rerun prepare_incomplete_files prepare_incomplete_entities
      update_dangling_files_as_completed
  prepare_rerun-history now true rerun db h =
      let latest = latest_run_id base db in
      let history_base = if latest == base then none else some base in
      let before =
        prepare_incomplete_entities base (statuses_for_rerun true)
          (prepare_incomplete_files base (create_entity_history base latest history_base db).1) in
      ground (
        arith,
        h,
        create_sync-history rerun before,
        create_entity_history_lem latest history_base db,
      )
  prepare_rerun-history now false rerun db h =
      let latest = latest_run_id base db in
      let history_base = if latest == base then none else some base in
      let before = prepare_incomplete_entities base (statuses_for_rerun false) (
        update_dangling_files_as_completed now base
          (create_entity_history base latest history_base db).1) in
      ground (
        arith,
        h,
        create_sync-history rerun before,
        create_entity_history_lem latest history_base db,
      )

  -- A closure that closes nothing changes nothing.
  try_closing_sync-none :
      (now : Date) (db : Db)
      → count (is_closable_base base db) db.syncs ≡ 0
      → (try_closing_sync now base db).1 ≡ db
  unfolding try_closing_sync
  try_closing_sync-none now db h =
      ap (λ syncs. record db { syncs = syncs })
        (update_where-none (is_closable_base base db) (close_sync now) db.syncs
          (count-zero (is_closable_base base db) db.syncs h))

  after_closing :
      (now : Date) (b : Bool) (rerun : SyncRow) (db : Db)
      → let c = (try_closing_sync now base db).1 in
        count (is_closable_base base db) db.syncs ≡ 0
        → (prepare_rerun now base b rerun c).0 ≡ ok true
        → (prepare_rerun now base b rerun c).1.history ≡ db.history ++ recorded db
  after_closing now b rerun db none_closed h =
      prepare_rerun-history now b rerun (try_closing_sync now base db).1 h
      ∙ ap (λ d. d.history ++ recorded d) (try_closing_sync-none now db none_closed)

  pub rerun_steps-history :
      (now : Date) (b : Bool) (rerun : SyncRow) (db : Db)
      → (rerun_steps now base b rerun db).0 ≡ ok true
      → let d = (delete_empty_files base db).1 in
        (rerun_steps now base b rerun db).1.history ≡ d.history ++ recorded d
  unfolding rerun_steps try_closing_sync
  rerun_steps-history now b rerun db h =
      let d = (delete_empty_files base db).1 in
      ground (arith, h, prepare_rerun-history now b rerun d, after_closing now b rerun d)
