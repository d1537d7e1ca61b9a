-- ===== src/Queue/Drain.antt =====
-- From the entities of a sync to its closure: the files worker on the jobs of its files, and then the
-- syncs worker (src/queueProvider/workers).
use osm_sync_tracker.Sync.Repository.{find_one_sync, attempt_sync_closure, close_sync}
use osm_sync_tracker.Queue.Workers.{process_files_job, World, file_jobs, process_syncs_job}
use osm_sync_tracker.Queue.Types.{JobQueueProvider, ClosureJob, closure_job, ClosureKind}
use osm_sync_tracker.Common.Db.{Transactor, IsolationLevel, transactionify, rename_failure}
use osm_sync_tracker.Sync.Rerun.{close_file}
use osm_sync_tracker.File.Closure.{entities_in, all_closed-eq, all_closed}
use osm_sync_tracker.Sync.Closure.{files_in, all_completed, attempt_sync_closure_lem}
use osm_sync_tracker.Tables.{Uuid, Date, Db, FileRow, SyncRow}
use osm_sync_tracker.Prelude.{
  Bool, true, ◌&&◌, ◌||◌, some, List, [], ◌∷◌, ◌≡◌, refl, arith, all, contains, count, update_where,
  ◌==◌, option_eq, if◌then◌else◌, ◌∙◌, ap, ◌≢◌, sym, ==-refl,
}
use osm_sync_tracker.Common.Enums.{Status, status_eq}
use osm_sync_tracker.File.Repository.{attempt_file_closure, is_up_for_closure}

-- What the files need for their closure, once a job for each of the ids is there: a file of the sync
-- is completed, or an id is its own, it states as its total the number of its entities, and all of
-- them are completed or not synced.
abbrev pub is_ready : Db → List Uuid → FileRow → Bool
is_ready db ids f =
    status_eq f.status Status.completed
    || (contains f.file_id ids
        && option_eq ◌==◌ f.total_entities (some (entities_in f.file_id db))
        && all_closed f.file_id db)

abbrev pub are_ready : Db → List Uuid → Uuid → Bool
are_ready db ids sync_id =
    all (λ f. if f.sync_id == sync_id then is_ready db ids f else true) db.files

attempt : Date → Uuid → Db → Db
attempt now id db = (attempt_file_closure now id db).1

attempt-entities : (now : Date) (id : Uuid) (db : Db) → (attempt now id db).entities ≡ db.entities
unfolding attempt attempt_file_closure
attempt-entities now id db = refl

attempt-syncs : (now : Date) (id : Uuid) (db : Db) → (attempt now id db).syncs ≡ db.syncs
unfolding attempt attempt_file_closure
attempt-syncs now id db = refl

files_in-update :
    (sync_id : Uuid) (p : FileRow → Bool) (now : Date) (fs : List FileRow)
    → count (λ f. f.sync_id == sync_id) (update_where p (close_file now) fs)
      ≡ count (λ f. f.sync_id == sync_id) fs
files_in-update sync_id p now [] = refl
files_in-update sync_id p now (f ∷ fs) = ground (arith, files_in-update sync_id p now fs)

attempt-files_in :
    (now : Date) (id sync_id : Uuid) (db : Db)
    → files_in sync_id (attempt now id db) ≡ files_in sync_id db
unfolding attempt attempt_file_closure
attempt-files_in now id sync_id db = files_in-update sync_id (is_up_for_closure id db) now db.files

-- An attempt completes the file of its id, so the others are what is left to do.
ready_step :
    (now : Date) (id : Uuid) (ids : List Uuid) (sync_id : Uuid) (db : Db) (fs : List FileRow)
    → all (λ f. if f.sync_id == sync_id then is_ready db (id ∷ ids) f else true) fs ≡ true
    → all
        (λ f. if f.sync_id == sync_id then is_ready db ids f else true)
        (update_where (is_up_for_closure id db) (close_file now) fs)
      ≡ true
ready_step now id ids sync_id db [] h = refl
ready_step now id ids sync_id db (f ∷ fs) h =
    ground (arith, ready_step now id ids sync_id db fs, all_closed-eq id db)

attempt-are_ready :
    (now : Date) (id : Uuid) (ids : List Uuid) (sync_id : Uuid) (db : Db)
    → are_ready db (id ∷ ids) sync_id ≡ true
    → are_ready (attempt now id db) ids sync_id ≡ true
unfolding attempt attempt_file_closure
attempt-are_ready now id ids sync_id db h = ready_step now id ids sync_id db db.files h

abbrev attempts : Date → List Uuid → Db → Db
attempts now [] db = db
attempts now (id ∷ ids) db = attempts now ids (attempt now id db)

attempts-syncs : (now : Date) (ids : List Uuid) (db : Db) → (attempts now ids db).syncs ≡ db.syncs
attempts-syncs now [] db = refl
attempts-syncs now (id ∷ ids) db =
    attempts-syncs now ids (attempt now id db) ∙ attempt-syncs now id db

attempts-files_in :
    (now : Date) (ids : List Uuid) (sync_id : Uuid) (db : Db)
    → files_in sync_id (attempts now ids db) ≡ files_in sync_id db
attempts-files_in now [] sync_id db = refl
attempts-files_in now (id ∷ ids) sync_id db =
    attempts-files_in now ids sync_id (attempt now id db) ∙ attempt-files_in now id sync_id db

-- With no job left, ready means completed.
ready_done :
    (sync_id : Uuid) (db : Db) (fs : List FileRow)
    → all (λ f. if f.sync_id == sync_id then is_ready db [] f else true) fs ≡ true
    → all (λ f. if f.sync_id == sync_id then status_eq f.status Status.completed else true) fs
      ≡ true
ready_done sync_id db [] h = refl
ready_done sync_id db (f ∷ fs) h = ground (arith, ready_done sync_id db fs)

attempts-all_completed :
    (now : Date) (ids : List Uuid) (sync_id : Uuid) (db : Db)
    → are_ready db ids sync_id ≡ true
    → all_completed sync_id (attempts now ids db) ≡ true
attempts-all_completed now [] sync_id db h = ready_done sync_id db db.files h
attempts-all_completed now (id ∷ ids) sync_id db h =
    attempts-all_completed now ids sync_id (attempt now id db)
      (attempt-are_ready now id ids sync_id db h)

module _ {Q : Type 0} (t : Transactor) (level : IsolationLevel) (queue : JobQueueProvider Q) where
  -- The files worker on jobs one after another. A job that fails leaves its state.
  abbrev pub process_files_jobs : Date → List ClosureJob → World Q → World Q
  process_files_jobs now [] w = w
  process_files_jobs now (job ∷ jobs) w =
      process_files_jobs now jobs (process_files_job t level queue now job w).1

  pushed_db :
      (now : Date) (job : ClosureJob) (w : World Q)
      → t.run level (attempt_file_closure now job.id) w.db ≡ attempt_file_closure now job.id w.db
      → (process_files_job t level queue now job w).1.db ≡ attempt now job.id w.db
  unfolding process_files_job transactionify rename_failure attempt attempt_file_closure
  pushed_db now job w goes_through = ground (arith, goes_through)

  pushed_dbs :
      (now : Date) (ids : List Uuid) (w : World Q)
      → ((id : Uuid) (db : Db)
          → t.run level (attempt_file_closure now id) db ≡ attempt_file_closure now id db)
      → (process_files_jobs now (file_jobs ids) w).db ≡ attempts now ids w.db
  pushed_dbs now [] w goes_through = refl
  pushed_dbs now (id ∷ ids) w goes_through =
      pushed_dbs now ids _ goes_through
      ∙ ap (attempts now ids)
          (pushed_db now (closure_job ClosureKind.file id) w (goes_through id w.db))

  synced_db :
      (later : Date) (sync_id : Uuid) (db : Db)
      → t.run level (attempt_sync_closure later sync_id) db ≡ attempt_sync_closure later sync_id db
      → (process_syncs_job t level later (closure_job ClosureKind.sync sync_id) db).1
        ≡ (attempt_sync_closure later sync_id db).1
  unfolding process_syncs_job transactionify rename_failure attempt_sync_closure
  synced_db later sync_id db goes_through = ground (arith, goes_through)

  attempts-find :
      (now : Date) (ids : List Uuid) (sync_id : Uuid) (db : Db)
      → find_one_sync sync_id (attempts now ids db) ≡ find_one_sync sync_id db
  unfolding find_one_sync
  attempts-find now ids sync_id db = rw (attempts-syncs now ids db) refl

  -- Let a sync that is not completed state as its total the number of its files, and let each of
  -- these files be completed, or have one of the ids and state as its total the number of its
  -- entities, all of which are completed or not synced. Let the transactions of the closures go
  -- through. Then the files worker on the jobs of the ids, in whatever order they come and whether or
  -- not its pushes to the next queue succeed, followed by the syncs worker on the job of the sync,
  -- closes the sync.
  pub drain_closes_sync :
      (now later : Date) (ids : List Uuid) (sync_id : Uuid) (w : World Q) (s : SyncRow)
      → find_one_sync sync_id w.db ≡ some s
      → s.status ≢ Status.completed
      → s.total_files ≡ some (files_in sync_id w.db)
      → are_ready w.db ids sync_id ≡ true
      → ((id : Uuid) (db : Db)
          → t.run level (attempt_file_closure now id) db ≡ attempt_file_closure now id db)
      → ((db : Db)
          → t.run level (attempt_sync_closure later sync_id) db
            ≡ attempt_sync_closure later sync_id db)
      → find_one_sync sync_id
          (process_syncs_job t level later
            (closure_job ClosureKind.sync sync_id)
            (process_files_jobs now (file_jobs ids) w).db).1
        ≡ some (close_sync later s)
  drain_closes_sync now later ids sync_id w s found open_sync total ready files_through
        sync_through =
      let db = attempts now ids w.db in
      let drained = pushed_dbs now ids w files_through in
      let closed =
        attempt_sync_closure_lem later sync_id sync_id db s
          (attempts-find now ids sync_id w.db ∙ found)
          (total ∙ ap some (sym (attempts-files_in now ids sync_id w.db))) in
      rw (drained, synced_db later sync_id db (sync_through db))
        (ground (arith, closed, attempts-all_completed now ids sync_id w.db ready, ==-refl sync_id))
