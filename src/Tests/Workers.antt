-- ===== src/Tests/Workers.antt =====
-- A worker provider on a process that counts, and a small database whose queues are worked off.
use osm_sync_tracker.Queue.Drain.{process_files_jobs, drain_closes_sync}
use osm_sync_tracker.Queue.Types.{closure_job, ClosureKind}
use osm_sync_tracker.Common.Errors.{Error}
use osm_sync_tracker.Common.Db.{IsolationLevel}
use osm_sync_tracker.File.Repository.{attempt_file_closure}
use osm_sync_tracker.Sync.Repository.{attempt_sync_closure, close_sync, find_one_sync}
use osm_sync_tracker.Tables.{Db, Uuid}
use osm_sync_tracker.Tests.Instances.{alone, list_queue}
use osm_sync_tracker.Queue.Workers.{process_syncs_job, file_jobs}
use osm_sync_tracker.Queue.Events.{Counts, on_events, on_events-Counts}
use osm_sync_tracker.Prelude.{
  ℕ, true, none, some, [], ◌∷◌, refl, ◌≡◌, ◌≢◌, arith, List, ◌+◌, if◌then◌else◌, ◌==◌,
}
use osm_sync_tracker.Common.Action.{ok, err}
use osm_sync_tracker.Common.Enums.{Status}
use osm_sync_tracker.Queue.Lifecycle.{
  WorkerClass, WorkerEvent, no_counts, start, close, emit, create_worker, initial,
}
use osm_sync_tracker.Queue.Balance.{
  WorkerOp, IsBalanced, apply_all, counted, fresh, lifecycle-IsBalanced,
}
use osm_sync_tracker.Tests.Samples.{sync as sample_sync, open_db}

-- Workers are numbers; the second cannot be closed.
abbrev workers : WorkerClass
workers = record {
  Process = ℕ;
  Worker = ℕ;
  construct = λ p. (ok p, p + 1);
  run = λ w p. (ok tt, p);
  close = λ w p. if w == 1 then (err Error.other_error, p) else (ok tt, p);
}

abbrev ops : List WorkerOp
ops =
    WorkerOp.start_op
    ∷ WorkerOp.start_op
    ∷ WorkerOp.event_op WorkerEvent.stalled
    ∷ WorkerOp.close_op
    ∷ WorkerOp.start_op
    ∷ WorkerOp.close_op
    ∷ WorkerOp.start_op
    ∷ []

lifecycle-IsBalanced_example :
    IsBalanced workers (apply_all (counted workers) ops (fresh workers true 0))
lifecycle-IsBalanced_example = lifecycle-IsBalanced workers true 0 ops

three_constructed :
    (apply_all (counted workers) ops (fresh workers true 0)).process.1.constructed ≡ 3
unfolding start close emit create_worker initial
three_constructed = refl

abbrev events : List WorkerEvent
events =
    WorkerEvent.completed (some 900) (some 400)
    ∷ WorkerEvent.failed (some (record { attempts = some 5; attempts_made = 2 }))
    ∷ WorkerEvent.failed none
    ∷ WorkerEvent.error
    ∷ []

on_events-Counts_example : Counts events no_counts (on_events events no_counts)
on_events-Counts_example = on_events-Counts events no_counts

sync_found : find_one_sync 1 open_db ≡ some (sample_sync Status.in_progress)
unfolding find_one_sync
sync_found = refl

sync_open : Status.in_progress ≢ Status.completed
sync_open h = ground arith

file_through :
    (id : Uuid) (db : Db)
    → alone.run IsolationLevel.serializable (attempt_file_closure 500 id) db
      ≡ attempt_file_closure 500 id db
unfolding attempt_file_closure
file_through id db = refl

sync_through :
    (db : Db)
    → alone.run IsolationLevel.serializable (attempt_sync_closure 600 1) db
      ≡ attempt_sync_closure 600 1 db
unfolding attempt_sync_closure
sync_through db = refl

drain_closes_sync_example :
    find_one_sync 1
      (process_syncs_job alone IsolationLevel.serializable 600
        (closure_job ClosureKind.sync 1)
        (process_files_jobs alone IsolationLevel.serializable list_queue 500
          (file_jobs (10 ∷ []))
          (record { db = open_db; queue = [] })).db).1
    ≡ some (close_sync 600 (sample_sync Status.in_progress))
drain_closes_sync_example =
    drain_closes_sync alone IsolationLevel.serializable list_queue 500 600 (10 ∷ []) 1
      (record { db = open_db; queue = [] }) (sample_sync Status.in_progress) sync_found sync_open
      refl refl file_through sync_through
