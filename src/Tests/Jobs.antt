-- ===== src/Tests/Jobs.antt =====
-- The theorems on files, entities and queues at the sample database.
use osm_sync_tracker.File.Creation.{IsStored, create_file-IsStored}
use osm_sync_tracker.File.Manager.{create_file}
use osm_sync_tracker.Sync.Repository.{find_one_sync, find_syncs}
use osm_sync_tracker.File.Models.{File}
use osm_sync_tracker.Queue.Failures.{process_job_wrapper_lem, on_queue, on_process}
use osm_sync_tracker.Queue.Notes.{noted, WriteCall}
use osm_sync_tracker.Queue.Worker.{process_job_wrapper}
use osm_sync_tracker.Queue.Bull.{Job}
use osm_sync_tracker.Queue.Batches.{batch_loop_without_progress, Batched, push_batches}
use osm_sync_tracker.File.Closure.{attempt_file_closure_again, attempt_file_closure_lem}
use osm_sync_tracker.Common.Hashes.{hash_batch_order, exchange}
use osm_sync_tracker.Entity.Models.{Entity}
use osm_sync_tracker.Common.Retries.{counted, calls_again, retry_function_wrapper_bound}
use osm_sync_tracker.Queue.Types.{
  ExtendedJobOptions, ClosureJob, QueueOptions, closure_job, ClosureKind,
}
use osm_sync_tracker.Queue.Pipeline.{
  once, is_file_of, find_files_by_changesets_lem, process_files_job-batch_ids,
  process_files_job_lem,
}
use osm_sync_tracker.Common.Errors.{Error}
use osm_sync_tracker.Common.Action.{Action, ok, err}
use osm_sync_tracker.Queue.Workers.{process_files_job}
use osm_sync_tracker.Common.Utils.{retry_function_wrapper, hash_batch}
use osm_sync_tracker.Prelude.{
  ℕ, Option, List, refl, leb, Bool, ◌≢◌, none, ◌≡◌, ◌∷◌, some, arith, ◌||◌, ◌<◌, true, suc, [],
  false, contains, ◌≤◌, zero, ltb, ◌&&◌,
}
use osm_sync_tracker.Tables.Keys.{IsKeyed}
use osm_sync_tracker.Tables.{Uuid, Db}
use osm_sync_tracker.Queue.Provider.{batch_loop, push, add_bulk}
use osm_sync_tracker.Common.Db.{IsolationLevel}
use osm_sync_tracker.Entity.Bulk.{AccountsFor, create_entities-AccountsFor}
use osm_sync_tracker.Tests.Instances.{alone, lodash, bull, hashing, list_queue}
use osm_sync_tracker.Tests.Samples.{sync as sample_sync, file, open_db, job}
use osm_sync_tracker.File.Repository
use osm_sync_tracker.Entity.Manager
use osm_sync_tracker.Entity.Repository as EntityRepository
use osm_sync_tracker.Common.Enums.{Status, EntityStatus}

found : Repository.find_one_file 10 open_db ≡ some (file Status.in_progress)
unfolding Repository.find_one_file
found = refl

is_open : Status.in_progress ≢ Status.completed
is_open h = ground arith

open_db-IsKeyed : IsKeyed open_db
open_db-IsKeyed = record {
  syncs = refl;
  files = refl;
  entities = refl;
  history = refl;
  changesets = refl;
}

attempt_file_closure_lem_example : Repository.attempt_file_closure 500 10 open_db ≡ (
  ok (Repository.closure_ids (file Status.in_progress) ∷ [], 1),
  record open_db {
    files =
        record (file Status.in_progress) { status = Status.completed; end_date = some 500 } ∷ [];
  },
)
attempt_file_closure_lem_example =
    attempt_file_closure_lem 500 10 open_db (file Status.in_progress) open_db-IsKeyed found is_open
      refl

attempt_file_closure_again_example :
    let after = (Repository.attempt_file_closure 500 10 open_db).1 in
    Repository.attempt_file_closure 600 10 after ≡ (ok ([], 0), after)
attempt_file_closure_again_example = attempt_file_closure_again 500 600 10 open_db

goes_through :
    alone.run IsolationLevel.serializable (Repository.attempt_file_closure 500 10) open_db
    ≡ Repository.attempt_file_closure 500 10 open_db
unfolding Repository.attempt_file_closure
goes_through = refl

process_files_job_lem_example :
    process_files_job alone IsolationLevel.serializable list_queue 500
      (job 10)
      (record { db = open_db; queue = [] })
    ≡ (
      ok (record {
        closed_count = some 1;
        closed_ids = some (10 ∷ []);
        invoked_job_count = 1;
        invoked_jobs = closure_job ClosureKind.sync 1 ∷ [];
      }),
      record {
        db = record open_db {
          files =
              record (file Status.in_progress) { status = Status.completed; end_date = some 500 }
              ∷ [];
        };
        queue = closure_job ClosureKind.sync 1 ∷ [];
      },
    )
process_files_job_lem_example =
    process_files_job_lem alone IsolationLevel.serializable list_queue 500 (job 10) open_db []
      (file Status.in_progress) open_db-IsKeyed found is_open refl goes_through

abbrev batch : ClosureJob
batch = record (job 77) { batch_ids = some (10 ∷ []) }

absent : Repository.find_one_file 77 open_db ≡ none
unfolding Repository.find_one_file
absent = refl

process_files_job-batch_ids_example :
    (process_files_job alone IsolationLevel.serializable list_queue 500 batch
      (record { db = open_db; queue = [] })).1
    ≡ record { db = open_db; queue = [] }
process_files_job-batch_ids_example =
    process_files_job-batch_ids alone IsolationLevel.serializable list_queue 500 77 (10 ∷ []) batch
      (record { db = open_db; queue = [] }) refl refl absent

find_files_by_changesets_lem_example :
    (once (EntityRepository.find_files_by_changesets (50 ∷ []) (Status.in_progress ∷ []) open_db)
      ≡ true)
    × ((file_id : Uuid)
        → contains file_id
            (EntityRepository.find_files_by_changesets (50 ∷ []) (Status.in_progress ∷ []) open_db)
          ≡ is_file_of (50 ∷ []) (Status.in_progress ∷ []) open_db file_id)
find_files_by_changesets_lem_example =
    find_files_by_changesets_lem (50 ∷ []) (Status.in_progress ∷ []) open_db

abbrev new_entity : Uuid → Entity
new_entity id = record {
  entity_id = id;
  file_id = none;
  changeset_id = none;
  status = EntityStatus.in_progress;
  action = none;
  fail_reason = none;
}

abbrev answer : Manager.EntityBulkCreationResult
answer = record { created = 102 ∷ 103 ∷ []; previously_completed = [] }

created :
    (Manager.create_entities lodash 10 (new_entity 102 ∷ new_entity 103 ∷ []) open_db).0 ≡ ok answer
unfolding Manager.create_entities Manager.create_entities_in Repository.find_one_file
    EntityRepository.find_many_entities_by_ids EntityRepository.create_entities find_syncs
created = refl

create_entities-AccountsFor_example : AccountsFor (102 ∷ 103 ∷ []) answer
create_entities-AccountsFor_example =
    create_entities-AccountsFor lodash 10 (new_entity 102 ∷ new_entity 103 ∷ []) open_db answer
      created

abbrev options : Option ℕ → QueueOptions
options size = record { enabled_batch_jobs = true; max_batch_size = size }

abbrev job_options : ExtendedJobOptions
job_options = record {
  attempts = none;
  delay = none;
  deduplication_delay = none;
  deduplication_ttl = none;
}

leb_total : (a b : ℕ) → (leb a b || leb b a) ≡ true
leb_total a b = ground arith

push_batches_example :
    (batches : List ClosureJob) × (push bull job_options hashing
        (options (some 2))
        (job 3 ∷ job 1 ∷ job 2 ∷ [])
      ≡ some (add_bulk bull job_options batches))
    × Batched hashing 2 (job 3 ∷ job 1 ∷ job 2 ∷ []) batches
push_batches_example =
    push_batches bull job_options hashing (options (some 2)) leb_total 2 (job 3) (job 1)
      (job 2 ∷ []) refl refl (omega arith)

batch_loop_without_progress_example : batch_loop hashing 0 (job 3) 5 (job 3 ∷ job 1 ∷ []) ≡ none
batch_loop_without_progress_example =
    batch_loop_without_progress hashing (job 3) (job 3) (job 1 ∷ []) 5

leb_antisym : (a b : ℕ) → leb a b ≡ true → leb b a ≡ true → a ≡ b
leb_antisym a b h k = ground arith

leb_trans : (a b c : ℕ) → leb a b ≡ true → leb b c ≡ true → leb a c ≡ true
leb_trans a b c h k = ground arith

hash_batch_order_example : hash_batch hashing (3 ∷ 1 ∷ []) ≡ hash_batch hashing (1 ∷ 3 ∷ [])
hash_batch_order_example =
    hash_batch_order hashing leb_total leb_antisym leb_trans (3 ∷ 1 ∷ []) (1 ∷ 3 ∷ []) exchange

-- A call that fails with a lost transaction until the state has counted down.
abbrev flaky : Action ℕ Unit
flaky zero = (ok tt, 0)
flaky (suc n) = (err Error.transaction_failure, n)

abbrev is_lost : Error → Bool
is_lost Error.transaction_failure = true
is_lost _ = false

retry_function_wrapper_bound_example :
    let out = retry_function_wrapper is_lost (counted is_lost flaky) 3 (2, 0) in
    (0 < out.1.1) × (out.1.1 ≤ 4) × ((ltb out.1.1 4 && calls_again is_lost out.0) ≡ false)
retry_function_wrapper_bound_example = retry_function_wrapper_bound is_lost flaky 3 2 0

abbrev queued : Job
queued = record { job_id = 5; payload = job 10 }

-- A job that loses its transaction.
abbrev lose : Job → Action (List ClosureJob) Unit
lose j q = (err Error.transaction_failure, q)

abbrev lost_job : ClosureJob
lost_job = record (job 10) { transaction_failure_count = some 1 }

process_job_wrapper_lem_example :
    let (result, (p', (_, calls))) =
      process_job_wrapper
        (noted bull)
        (on_queue bull)
        (on_process bull lose)
        700
        30
        queued
        ([], ([], [])) in
    (result ≡ err Error.delayed)
    × (p' ≡ [])
    × (calls ≡ WriteCall.updated lost_job ∷ WriteCall.moved 730 ∷ [])
process_job_wrapper_lem_example = process_job_wrapper_lem bull lose 700 30 queued [] []

-- The file of the sample once more, in a rerun of its sync.
abbrev rerun_db : Db
rerun_db = record open_db {
  syncs =
      sample_sync Status.failed
      ∷ record (sample_sync Status.in_progress) { id = 2; base_sync_id = some 1; run_number = 1 }
      ∷ [];
}

abbrev same_again : File
same_again = record {
  file_id = 10;
  sync_id = 2;
  total_entities = some (some 2);
  start_date = 810;
  end_date = none;
  status = Status.in_progress;
}

rerun_found :
    find_one_sync 2 rerun_db
    ≡ some
        (record (sample_sync Status.in_progress) { id = 2; base_sync_id = some 1; run_number = 1 })
unfolding find_one_sync
rerun_found = refl

stored : (create_file 2 same_again rerun_db).0 ≡ ok tt
unfolding create_file find_one_sync Repository.find_one_file
stored = refl

create_file-IsStored_example : IsStored 1 same_again (create_file 2 same_again rerun_db).1
create_file-IsStored_example =
    create_file-IsStored 2 same_again rerun_db
      (record (sample_sync Status.in_progress) { id = 2; base_sync_id = some 1; run_number = 1 })
      rerun_found stored
