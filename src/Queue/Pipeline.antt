-- ===== src/Queue/Pipeline.antt =====
-- How the closure of a file leads to the closure of its sync, and how changesets lead to files:
-- src/queueProvider/workers over the repositories.
use osm_sync_tracker.Common.Transactions.{run-cases}
use osm_sync_tracker.Sync.Rerun.{close_file}
use osm_sync_tracker.Common.Action.{Result, ok, err, try_catch, ◌>>=◌}
use osm_sync_tracker.File.Closure.{
  entities_in, all_closed, attempt_file_closure-missing, attempt_file_closure_lem,
}
use osm_sync_tracker.Tables.Keys.{IsKeyed}
use osm_sync_tracker.File.Repository.{
  attempt_file_closure, find_one_file, FileClosureIds, closure_ids,
}
use osm_sync_tracker.Queue.Types.{
  JobQueueProvider, ClosureJob, closure_job, ClosureKind, ClosureReturn,
}
use osm_sync_tracker.Entity.Repository.{
  distinct_ids, is_in_changesets, joins_file, find_files_by_changesets,
}
use osm_sync_tracker.Common.Enums.{Status, status_eq}
use osm_sync_tracker.Prelude.{
  List, Bool, contains, option_eq, ◌||◌, ◌≡◌, true, ◌∷◌, any, not, ◌==◌, arith, [], ◌&&◌, some,
  none, ◌≢◌, if◌then◌else◌, refl, update_where, inl, inr, ap, ◌∙◌, false, map, filter,
}
use osm_sync_tracker.Tables.{Uuid, Db, Date, FileRow, EntityRow}
use osm_sync_tracker.Common.Db.{
  Transactor, IsolationLevel, transactionify, rename_failure, ReturningResult,
}
use osm_sync_tracker.Queue.Workers.{World, process_files_job, on_db, invoke_sync}

-- The report of a files job that closed nothing.
abbrev pub nothing_closed : ClosureReturn
nothing_closed = record {
  closed_count = some 0;
  closed_ids = some [];
  invoked_job_count = 0;
  invoked_jobs = [];
}

-- The report of a files job that closed a file, once the job for its sync has been pushed.
abbrev pub report_closed :
    {Q : Type 0} → FileRow → Result Unit × Q → Db → Result ClosureReturn × World Q
report_closed f (ok _, q) db = (
  ok (record {
    closed_count = some 1;
    closed_ids = some (f.file_id ∷ []);
    invoked_job_count = 1;
    invoked_jobs = closure_job ClosureKind.sync f.sync_id ∷ [];
  }),
  record { db = db; queue = q },
)
report_closed f (err e, q) db = (err e, record { db = db; queue = q })

module _ {Q : Type 0} (t : Transactor) (level : IsolationLevel) (queue : JobQueueProvider Q) where
  -- The files job once its transaction has ended.
  after_run :
      World Q → Result (ReturningResult FileClosureIds) × Db → Result ClosureReturn × World Q
  after_run w x = (on_db (try_catch (λ _. x) rename_failure) >>= invoke_sync t level queue) w

  after_attempt :
      (now : Date) (file_id : Uuid) (db : Db) (q : Q) (f : FileRow) (b : Bool)
      → let closed = record db {
        files = update_where (λ g. g.file_id == file_id) (close_file now) db.files;
      } in
        after_run
          (record { db = db; queue = q })
          (if b then (ok (closure_ids f ∷ [], 1), closed) else (ok ([], 0), db))
        ≡ (if b
            then report_closed f (queue.push (closure_job ClosureKind.sync f.sync_id ∷ []) q) closed
            else (ok nothing_closed, record { db = db; queue = q }))
  unfolding after_run
  after_attempt now file_id db q f true = ground arith
  after_attempt now file_id db q f false = ground arith

  -- Let the primary keys hold, let the file of the job be open and state as its total the number of
  -- its entities, and let the transaction go through. If all of these entities are completed or not
  -- synced, then the job closes the file and pushes one job, for the sync of the file; otherwise it
  -- reports that nothing was closed, and neither the database nor the queue changes.
  pub process_files_job_lem :
      (now : Date) (job : ClosureJob) (db : Db) (q : Q) (f : FileRow)
      → IsKeyed db
      → find_one_file job.id db ≡ some f
      → f.status ≢ Status.completed
      → f.total_entities ≡ some (entities_in job.id db)
      → t.run level (attempt_file_closure now job.id) db ≡ attempt_file_closure now job.id db
      → process_files_job t level queue now job (record { db = db; queue = q }) ≡ (
          if all_closed job.id db
          then report_closed f
              (queue.push (closure_job ClosureKind.sync f.sync_id ∷ []) q)
              (record db {
                files = update_where (λ g. g.file_id == job.id) (close_file now) db.files;
              })
          else (ok nothing_closed, record { db = db; queue = q }))
  unfolding process_files_job transactionify after_run
  process_files_job_lem now job db q f k found open_file total goes_through =
      let closure = attempt_file_closure_lem now job.id db f k found open_file total in
      ap (after_run (record { db = db; queue = q })) (goes_through ∙ closure)
      ∙ after_attempt now job.id db q f (all_closed job.id db)

  idle_job :
      (now : Date) (job : ClosureJob) (w : World Q)
      → attempt_file_closure now job.id w.db ≡ (ok ([], 0), w.db)
      → (process_files_job t level queue now job w).1 ≡ w
  unfolding process_files_job transactionify rename_failure after_run
  idle_job now job w idle = elim (run-cases t level (attempt_file_closure now job.id) w.db) [
    | inl committed ↦ ap (λ x. (after_run w x).1) (committed ∙ idle)
    | inr (e, failed) ↦ ap (λ x. (after_run w x).1) failed
  ]

  -- A job whose id is no file's closes nothing: it changes neither the database nor the queue,
  -- whatever the ids of its batch are.
  pub process_files_job-batch_ids :
      (now : Date) (id : Uuid) (batch_ids : List Uuid) (job : ClosureJob) (w : World Q)
      → job.id ≡ id
      → job.batch_ids ≡ some batch_ids
      → find_one_file id w.db ≡ none
      → (process_files_job t level queue now job w).1 ≡ w
  process_files_job-batch_ids now id batch_ids job w e b missing =
      idle_job now job w (attempt_file_closure-missing now job.id w.db (rw e missing))

-- Whether an entity is uploaded in one of the changesets.
abbrev pub is_uploaded_in : List Uuid → EntityRow → Bool
is_uploaded_in [] e = false
is_uploaded_in (c ∷ cs) e = option_eq ◌==◌ e.changeset_id (some c) || is_uploaded_in cs e

-- A file of one of the statuses, with an entity that is uploaded in one of the changesets.
abbrev pub is_file_of : List Uuid → List Status → Db → Uuid → Bool
is_file_of changeset_ids statuses db file_id =
    any (λ f. f.file_id == file_id && any (status_eq f.status) statuses) db.files
    && any (λ e. e.file_id == file_id && is_uploaded_in changeset_ids e) db.entities

is_uploaded_in-code : (cs : List Uuid) (e : EntityRow) → is_in_changesets cs e ≡ is_uploaded_in cs e
is_uploaded_in-code [] e = ground arith
is_uploaded_in-code (c ∷ cs) e = ground (arith, is_uploaded_in-code cs e)

same_file_joins :
    (statuses : List Status) (fs : List FileRow) (e : EntityRow) (file_id : Uuid)
    → (file_id == e.file_id) ≡ true
    → any (λ f. f.file_id == e.file_id && any (status_eq f.status) statuses) fs
      ≡ any (λ f. f.file_id == file_id && any (status_eq f.status) statuses) fs
same_file_joins statuses [] e file_id h = refl
same_file_joins statuses (f ∷ fs) e file_id h =
    ground (arith, same_file_joins statuses fs e file_id h, h)

is_file_of-entities :
    (cs : List Uuid) (statuses : List Status) (fs : List FileRow) (es : List EntityRow)
    (file_id : Uuid)
    → any
        (λ e.
          file_id == e.file_id
          && (is_in_changesets cs e
              && any (λ f. f.file_id == e.file_id && any (status_eq f.status) statuses) fs))
        es
      ≡ (any (λ f. f.file_id == file_id && any (status_eq f.status) statuses) fs
          && any (λ e. e.file_id == file_id && is_uploaded_in cs e) es)
is_file_of-entities cs statuses fs [] file_id = ground arith
is_file_of-entities cs statuses fs (e ∷ es) file_id = ground (
  arith,
  is_uploaded_in-code cs e,
  same_file_joins statuses fs e file_id,
  is_file_of-entities cs statuses fs es file_id,
)

abbrev pub once : List Uuid → Bool
once [] = true
once (x ∷ xs) = not (contains x xs) && once xs

contains-distinct_ids : (x : Uuid) (xs : List Uuid) → contains x (distinct_ids xs) ≡ contains x xs
contains-distinct_ids x [] = refl
contains-distinct_ids x (y ∷ ys) = ground (arith, contains-distinct_ids x ys)

once-distinct_ids : (xs : List Uuid) → once (distinct_ids xs) ≡ true
once-distinct_ids [] = refl
once-distinct_ids (y ∷ ys) = ground (arith, once-distinct_ids ys, contains-distinct_ids y ys)

contains-files :
    (x : Uuid) (p : EntityRow → Bool) (es : List EntityRow)
    → contains x (map (λ e. e.file_id) (filter p es)) ≡ any (λ e. x == e.file_id && p e) es
contains-files x p [] = refl
contains-files x p (e ∷ es) = ground (arith, contains-files x p es)

-- The files of a list of changesets are exactly the files in the table that have one of the statuses
-- and an entity that is uploaded in one of the changesets; each of them stands in the answer once.
pub find_files_by_changesets_lem :
    (changeset_ids : List Uuid) (statuses : List Status) (db : Db)
    → (once (find_files_by_changesets changeset_ids statuses db) ≡ true)
      × ((file_id : Uuid)
          → contains file_id (find_files_by_changesets changeset_ids statuses db)
            ≡ is_file_of changeset_ids statuses db file_id)
unfolding find_files_by_changesets
find_files_by_changesets_lem changeset_ids statuses db =
    let p = λ (e : EntityRow). is_in_changesets changeset_ids e && joins_file statuses db e in
    let ids = map (λ (e : EntityRow). e.file_id) (filter p db.entities) in
    (
      once-distinct_ids ids,
      λ file_id.
          contains-distinct_ids file_id ids
          ∙ contains-files file_id p db.entities
          ∙ is_file_of-entities changeset_ids statuses db.files db.entities file_id,
    )
