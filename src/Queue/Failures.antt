-- ===== src/Queue/Failures.antt =====
-- How a job ends: `processJobWrapper` of src/queueProvider/workers/bullWorkerProvider.ts.
use osm_sync_tracker.Prelude.{ℕ, ◌+◌, some, get_or, List, [], ◌∷◌, ◌≡◌, arith}
use osm_sync_tracker.Common.Errors.{Error}
use osm_sync_tracker.Common.Action.{Result, ok, err, Action}
use osm_sync_tracker.Queue.Types.{ClosureJob}
use osm_sync_tracker.Queue.Bull.{Bull, Job}
use osm_sync_tracker.Queue.Notes.{noted, WriteCall}
use osm_sync_tracker.Queue.Provider.{delay_job, update_job_counter}
use osm_sync_tracker.Queue.Worker.{process_job_wrapper}

-- How a job ends, by how its processing ended and how the queue answers the two calls.
abbrev pub ending : {R : Type 0} → Result R → Result Unit → Result Unit → Result R
ending (err Error.transaction_failure) (err e) moved = err e
ending (err Error.transaction_failure) (ok _) (err e) = err e
ending (err Error.transaction_failure) (ok _) (ok _) = err Error.delayed
ending r updated moved = r

-- The job with one more failure of a transaction counted.
abbrev pub failed_again : ClosureJob → ClosureJob
failed_again job = record job {
  transaction_failure_count = some (get_or job.transaction_failure_count 0 + 1);
}

-- What is asked of the queue: the counter goes first, and the job is moved if that succeeds.
abbrev pub asked : {R : Type 0} → ClosureJob → ℕ → Result R → Result Unit → List WriteCall
asked job at (err Error.transaction_failure) (err e) = WriteCall.updated (failed_again job) ∷ []
asked job at (err Error.transaction_failure) (ok _) =
    WriteCall.updated (failed_again job) ∷ WriteCall.moved at ∷ []
asked job at r updated = []

-- The worker beside its queue.
abbrev pub on_queue :
    {P : Type 0} (bull : Bull)
    → Action (bull.State × List WriteCall) (Unit {0})
    → Action (P × (bull.State × List WriteCall)) (Unit {0})
on_queue bull m (p, b) = let (r, b') = m b in (r, (p, b'))

abbrev pub on_process :
    {P R : Type 0} (bull : Bull)
    → (Job → Action P R)
    → Job
    → Action (P × (bull.State × List WriteCall)) R
on_process bull m job (p, b) = let (r, p') = m job p in (r, (p', b))

module _ {P R : Type 0} (bull : Bull) where
  -- A job whose transaction failed is counted as such once more and then moved to the time that
  -- is the delay from now, and ends as delayed; where a call to the queue fails, the job ends with
  -- the error of that call, and no further call is made. Any other job ends as it did, and
  -- nothing is asked of the queue.
  pub process_job_wrapper_lem :
      (process_job : Job → Action P R) (now delay : ℕ) (job : Job) (p : P) (b : bull.State)
      → let (result, (p', (_, calls))) =
          process_job_wrapper
            (noted bull)
            (on_queue bull)
            (on_process bull process_job)
            now
            delay
            job
            (p, (b, [])) in
        let processed = process_job job p in
        let counting = bull.update_data job (failed_again job.payload) b in
        let moving = bull.move_to_delayed job (now + delay) counting.1 in
        (result ≡ ending processed.0 counting.0 moving.0)
        × (p' ≡ processed.1)
        × (calls ≡ asked job.payload (now + delay) processed.0 counting.0)
  unfolding process_job_wrapper delay_job update_job_counter
  process_job_wrapper_lem process_job now delay job p b = ground arith
