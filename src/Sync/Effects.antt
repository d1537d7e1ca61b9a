-- ===== src/Sync/Effects.antt =====
-- What a rerun does to the entities: the statements of `createRerun` in
-- src/sync/DAL/syncRepository.ts.
use osm_sync_tracker.Sync.Deletion.{
  update_where-same, delete_empty_files-entities, left_files, have_files,
}
use osm_sync_tracker.Common.Transactions.{run-cases}
use osm_sync_tracker.Sync.Models.{CreateRerunRequest}
use osm_sync_tracker.Common.Db.{rename_failure, Transactor, IsolationLevel}
use osm_sync_tracker.Sync.Repository.{create_sync}
use osm_sync_tracker.Common.Action.{ok}
use osm_sync_tracker.Common.Enums.{entity_status_eq, EntityStatus}
use osm_sync_tracker.Prelude.{
  Bool, List, ◌≡◌, any, map, true, false, ◌==◌, ◌∷◌, arith, update_where, [], ◌&&◌, refl, ap, ◌∙◌,
  if◌then◌else◌, Option, none, some, inl, inr,
}
use osm_sync_tracker.Tables.{Uuid, Db, EntityRow, Date, SyncRow}
use osm_sync_tracker.Sync.Rerun.{
  delete_empty_files, has_entity, update_dangling_files_as_completed, prepare_incomplete_files,
  is_in_sync, create_entity_history, reset_entity, prepare_rerun, prepare_incomplete_entities,
  statuses_for_rerun, is_for_rerun, latest_run_id, try_closing_sync, rerun_steps, create_rerun,
  rerun_body,
}

module _ {A : Type 0} (q p : A → Bool) (f : A → A) (keep : (x : A) → q (f x) ≡ q x) where
  any-update_where_same : (xs : List A) → any q (update_where p f xs) ≡ any q xs
  any-update_where_same [] = refl
  any-update_where_same (x ∷ xs) = ground (arith, keep x, any-update_where_same xs)

module _ (base : Uuid) where
  -- The files that a rerun prepares stay in their sync.
  prepare_incomplete_files-is_in_sync :
      (db : Db) (e : EntityRow)
      → is_in_sync base (prepare_incomplete_files base db) e ≡ is_in_sync base db e
  unfolding prepare_incomplete_files
  prepare_incomplete_files-is_in_sync db e =
      any-update_where_same (λ f. f.file_id == e.file_id && f.sync_id == base) _ _ (λ x. refl)
        db.files

  update_dangling-is_in_sync :
      (now : Date) (db : Db) (e : EntityRow)
      → is_in_sync base (update_dangling_files_as_completed now base db) e ≡ is_in_sync base db e
  unfolding update_dangling_files_as_completed
  update_dangling-is_in_sync now db e =
      any-update_where_same (λ f. f.file_id == e.file_id && f.sync_id == base) _ _ (λ x. refl)
        db.files

  create_entity_history-tables :
      (run : Uuid) (history_base : Option Uuid) (db : Db)
      → ((create_entity_history base run history_base db).1.entities ≡ db.entities)
        × ((create_entity_history base run history_base db).1.files ≡ db.files)
  unfolding create_entity_history
  create_entity_history-tables run history_base db = ground arith

  create_sync-entities : (s : SyncRow) (db : Db) → (create_sync s db).1.entities ≡ db.entities
  unfolding create_sync
  create_sync-entities s db = ground arith

  update_where-pointwise :
      (p q : EntityRow → Bool) (es : List EntityRow)
      → ((e : EntityRow) → p e ≡ q e)
      → update_where p reset_entity es ≡ update_where q reset_entity es
  update_where-pointwise p q [] same = refl
  update_where-pointwise p q (e ∷ es) same =
      ground (arith, same e, update_where-pointwise p q es same)

  -- The files step, as it stands between the history and the entities.
  files_step : Date → Bool → Db → Db
  files_step now not_synced =
      if not_synced
      then prepare_incomplete_files base
      else update_dangling_files_as_completed now base

  files_step-is_in_sync :
      (now : Date) (b : Bool) (db : Db) (e : EntityRow)
      → is_in_sync base (files_step now b db) e ≡ is_in_sync base db e
  unfolding files_step
  files_step-is_in_sync now true db e = prepare_incomplete_files-is_in_sync db e
  files_step-is_in_sync now false db e = update_dangling-is_in_sync now db e

  files_step-entities :
      (now : Date) (b : Bool) (db : Db) → (files_step now b db).entities ≡ db.entities
  unfolding files_step prepare_incomplete_files update_dangling_files_as_completed
  files_step-entities now true db = refl
  files_step-entities now false db = refl

  entities_step :
      (now : Date) (b : Bool) (run : Uuid) (history_base : Option Uuid) (db : Db)
      → (prepare_incomplete_entities base
          (statuses_for_rerun b)
          (files_step now b (create_entity_history base run history_base db).1)).entities
        ≡ update_where (is_for_rerun base (statuses_for_rerun b) db) reset_entity db.entities
  unfolding prepare_incomplete_entities
  entities_step now b run history_base db =
      let d = (create_entity_history base run history_base db).1 in
      let (es, fs) = create_entity_history-tables run history_base db in
      update_where-pointwise _ (is_for_rerun base (statuses_for_rerun b) d)
        (files_step now b d).entities
        (λ e.
          ap (λ x. x && any (entity_status_eq e.status) (statuses_for_rerun b))
            (files_step-is_in_sync now b d e))
      ∙ ap (update_where (is_for_rerun base (statuses_for_rerun b) d) reset_entity)
          (files_step-entities now b d ∙ es)
      ∙ ap
          (λ files.
            update_where
              (λ e.
                any (λ f. f.file_id == e.file_id && f.sync_id == base) files
                && any (entity_status_eq e.status) (statuses_for_rerun b))
              reset_entity db.entities)
          fs

  prepare_rerun-entities :
      (now : Date) (b : Bool) (rerun : SyncRow) (db : Db) (c : Bool)
      → (prepare_rerun now base b rerun db).0 ≡ ok c
      → (prepare_rerun now base b rerun db).1.entities
        ≡ update_where (is_for_rerun base (statuses_for_rerun b) db) reset_entity db.entities
  unfolding prepare_rerun files_step
  prepare_rerun-entities now b rerun db c h =
      let latest = latest_run_id base db in
      let history_base = if latest == base then none else some base in
      let before =
        prepare_incomplete_entities base (statuses_for_rerun b)
          (files_step now b (create_entity_history base latest history_base db).1) in
      ground
        (arith, h, create_sync-entities rerun before, entities_step now b latest history_base db)

  -- The entities of files that are deleted are none, so the later statements meet them all.
  after_deletion :
      (b : Bool) (db d : Db)
      → d.entities ≡ db.entities
      → d.files ≡ (delete_empty_files base db).1.files
      → update_where (is_for_rerun base (statuses_for_rerun b) d) reset_entity d.entities
        ≡ update_where (is_for_rerun base (statuses_for_rerun b) db) reset_entity db.entities
  unfolding delete_empty_files
  after_deletion b db d es fs =
      ap (update_where (is_for_rerun base (statuses_for_rerun b) d) reset_entity) es
      ∙ update_where-same (λ e. has_entity db e.file_id) _ _ reset_entity db.entities
          (λ e h.
            ap (λ x. x && any (entity_status_eq e.status) (statuses_for_rerun b))
              (ap (any (λ f. f.file_id == e.file_id && f.sync_id == base)) fs
                ∙ left_files base db e db.files h))
          (have_files db.entities db.entities (λ id h. h))

  try_closing_sync-tables :
      (now : Date) (db : Db)
      → ((try_closing_sync now base db).1.entities ≡ db.entities)
        × ((try_closing_sync now base db).1.files ≡ db.files)
  unfolding try_closing_sync
  try_closing_sync-tables now db = (refl, refl)

  rerun_steps-entities :
      (now : Date) (b : Bool) (rerun : SyncRow) (db : Db)
      → (rerun_steps now base b rerun db).0 ≡ ok true
      → (rerun_steps now base b rerun db).1.entities
        ≡ update_where (is_for_rerun base (statuses_for_rerun b) db) reset_entity db.entities
  unfolding rerun_steps
  rerun_steps-entities now b rerun db h =
      let d = (delete_empty_files base db).1 in
      let c = (try_closing_sync now base d).1 in
      let (es, fs) = try_closing_sync-tables now d in
      let deleted = delete_empty_files-entities base db in
      ground (
        arith,
        h,
        prepare_rerun-entities now b rerun d true,
        prepare_rerun-entities now b rerun c true,
        after_deletion b db d deleted refl,
        after_deletion b db c (es ∙ deleted) fs,
      )

-- The entity's file is one of the sync.
abbrev pub stands_in : Uuid → Db → EntityRow → Bool
stands_in base db e = any (λ f. f.file_id == e.file_id && f.sync_id == base) db.files

-- Whether an entity of the status is done once more.
abbrev pub is_incomplete : Bool → EntityStatus → Bool
is_incomplete not_synced EntityStatus.in_progress = true
is_incomplete not_synced EntityStatus.failed = true
is_incomplete not_synced EntityStatus.not_synced = not_synced
is_incomplete not_synced EntityStatus.completed = false
is_incomplete not_synced EntityStatus.in_rerun = false

-- The entity as it waits for a rerun.
abbrev pub waiting : EntityRow → EntityRow
waiting e = record {
  entity_id = e.entity_id;
  file_id = e.file_id;
  changeset_id = none;
  status = EntityStatus.in_rerun;
  action = none;
  fail_reason = none;
}

abbrev pub after_rerun : Uuid → Bool → Db → EntityRow → EntityRow
after_rerun base not_synced db e =
    if stands_in base db e && is_incomplete not_synced e.status then waiting e else e

status_for_rerun :
    (not_synced : Bool) (status : EntityStatus)
    → any (entity_status_eq status) (statuses_for_rerun not_synced)
      ≡ is_incomplete not_synced status
status_for_rerun true status = ground arith
status_for_rerun false status = ground arith

reset_incomplete :
    (base : Uuid) (not_synced : Bool) (db : Db) (es : List EntityRow)
    → update_where (is_for_rerun base (statuses_for_rerun not_synced) db) reset_entity es
      ≡ map (after_rerun base not_synced db) es
reset_incomplete base not_synced db [] = refl
reset_incomplete base not_synced db (e ∷ es) =
    ground (arith, status_for_rerun not_synced e.status, reset_incomplete base not_synced db es)

create_rerun-resets :
    (t : Transactor) (now : Date) (r : CreateRerunRequest) (base : Uuid) (db : Db)
    → r.sync.base_sync_id ≡ some base
    → (create_rerun t now r db).0 ≡ ok true
    → (create_rerun t now r db).1.entities
      ≡ update_where
          (is_for_rerun base (statuses_for_rerun r.should_rerun_not_synced) db)
          reset_entity
          db.entities
unfolding create_rerun rename_failure rerun_body
create_rerun-resets t now r base db given h =
    let body = rerun_body now r.should_rerun_not_synced r.sync in
    elim (run-cases t IsolationLevel.serializable body db) [
      | inl committed ↦ ground (
        arith,
        h,
        committed,
        given,
        rerun_steps-entities base now r.should_rerun_not_synced r.sync db,
      )
      | inr (e, failed) ↦ ground (arith, h, failed)
    ]

-- A rerun that is created resets, of all the entities, exactly those of the base sync's files that
-- were in progress or had failed, and those not synced if the request asks for them: these wait for
-- the rerun, without a changeset, an action and a reason of failure. Every other entity stays as it
-- is, and none is deleted.
pub create_rerun_entities :
    (t : Transactor) (now : Date) (r : CreateRerunRequest) (base : Uuid) (db : Db)
    → r.sync.base_sync_id ≡ some base
    → (create_rerun t now r db).0 ≡ ok true
    → (create_rerun t now r db).1.entities
      ≡ map (after_rerun base r.should_rerun_not_synced db) db.entities
create_rerun_entities t now r base db given h =
    create_rerun-resets t now r base db given h
    ∙ reset_incomplete base r.should_rerun_not_synced db db.entities
