-- ===== src/Queue/Workers.antt =====
-- src/queueProvider/workers: changesetsWorker.ts, filesWorker.ts and syncsWorker.ts. `level` is the
-- isolation level of the options, and `now` is LOCALTIMESTAMP.
use osm_sync_tracker.Prelude.{ℕ, none, some, List, [], ◌∷◌, map, length, ◌==◌, if◌then◌else◌}
use osm_sync_tracker.Common.Errors.{other_error}
use osm_sync_tracker.Common.Enums.{Status}
use osm_sync_tracker.Common.Action.{Action, ok, pure, throw, ◌>>=◌, ◌>>◌}
use osm_sync_tracker.Common.Db.{Transactor, IsolationLevel, ReturningResult, transactionify}
use osm_sync_tracker.Tables.{Uuid, Date, Db}
use osm_sync_tracker.Entity.Repository.{find_files_by_changesets}
use osm_sync_tracker.File.Repository.{FileClosureIds, attempt_file_closure}
use osm_sync_tracker.Sync.Repository.{attempt_sync_closure}
use osm_sync_tracker.Queue.Types.{
  ClosureKind, ClosureJob, ClosureReturn, JobQueueProvider, closure_job,
}

-- The database beside the queue that a worker fills.
pub record World (Q : Type 0) : Type 0 where
  pub db : Db
  pub queue : Q

module _ {Q A : Type 0} where
  abbrev pub on_db : Action Db A → Action (World Q) A
  on_db m w = let (r, db) = m w.db in (r, record { db = db; queue = w.queue })

  abbrev pub on_queue : Action Q A → Action (World Q) A
  on_queue m w = let (r, q) = m w.queue in (r, record { db = w.db; queue = q })

-- The ids of a batch job, or the one id.
abbrev pub changeset_ids_of : ClosureJob → List Uuid
changeset_ids_of job = elim job.batch_ids [ none ↦ job.id ∷ [] | some ids ↦ ids ]

abbrev pub file_jobs : List Uuid → List ClosureJob
file_jobs = map (closure_job ClosureKind.file)

module _ {Q : Type 0} (t : Transactor) (level : IsolationLevel) (queue : JobQueueProvider Q) where
  -- The end of the changesets worker: no file, no push.
  abbrev pub invoke_files : List Uuid → Action (World Q) ClosureReturn
  invoke_files [] =
      pure (record {
        closed_count = none;
        closed_ids = none;
        invoked_job_count = 0;
        invoked_jobs = [];
      })
  invoke_files (f ∷ fs) =
      on_queue (queue.push (file_jobs (f ∷ fs)))
      >> pure (record {
        closed_count = none;
        closed_ids = none;
        invoked_job_count = length (file_jobs (f ∷ fs));
        invoked_jobs = file_jobs (f ∷ fs);
      })

  unfoldable pub process_changesets_job : ClosureJob → Action (World Q) ClosureReturn
  process_changesets_job job = do
    file_ids ← on_db (
        transactionify t level (λ db.
          (ok (find_files_by_changesets (changeset_ids_of job) (Status.in_progress ∷ []) db), db)))
    invoke_files file_ids

  -- At most one file is expected to be closed: the first is taken apart, and none is a TypeError.
  abbrev pub invoke_first : ℕ → List FileClosureIds → Action (World Q) ClosureReturn
  invoke_first closed_count [] = throw other_error
  invoke_first closed_count (ids ∷ _) =
      on_queue (queue.push (closure_job ClosureKind.sync ids.sync_id ∷ []))
      >> pure (record {
        closed_count = some closed_count;
        closed_ids = some (ids.file_id ∷ []);
        invoked_job_count = 1;
        invoked_jobs = closure_job ClosureKind.sync ids.sync_id ∷ [];
      })

  -- The end of the files worker.
  abbrev pub invoke_sync : ReturningResult FileClosureIds → Action (World Q) ClosureReturn
  invoke_sync (closed_ids, closed_count) =
      if closed_count == 0
      then pure (record {
        closed_count = some closed_count;
        closed_ids = some [];
        invoked_job_count = 0;
        invoked_jobs = [];
      })
      else invoke_first closed_count closed_ids

  unfoldable pub process_files_job : Date → ClosureJob → Action (World Q) ClosureReturn
  process_files_job now job = do
    closed ← on_db (transactionify t level (attempt_file_closure now job.id))
    invoke_sync closed

unfoldable pub process_syncs_job :
    Transactor → IsolationLevel → Date → ClosureJob → Action Db ClosureReturn
process_syncs_job t level now job = do
  closed ← transactionify t level (attempt_sync_closure now job.id)
  pure (record {
    closed_count = some closed.1;
    closed_ids = some closed.0;
    invoked_job_count = 0;
    invoked_jobs = [];
  })
