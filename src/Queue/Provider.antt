-- ===== src/Queue/Provider.antt =====
-- src/queueProvider/queues/bullQueueProvider.ts and helpers.ts, without the metrics.
use osm_sync_tracker.Prelude.{
  ℕ, zero, suc, ◌+◌, Bool, true, false, not, Option, none, some, get_or, List, [], ◌∷◌, map, length,
  take, drop,
}
use mathlib.Core.Option
use osm_sync_tracker.Common.Errors.{other_error}
use osm_sync_tracker.Common.Action.{Action, pure, throw_if, try_catch, ◌>>=◌, ◌>>◌}
use osm_sync_tracker.Common.Utils.{Hashing, hash_batch}
use osm_sync_tracker.Tables.{Uuid}
use osm_sync_tracker.Queue.Types.{ClosureJob, QueueOptions, ExtendedJobOptions}
use osm_sync_tracker.Queue.Bull.{Bull, BulkJob, AddOptions, Job}

pub data CounterKind : Type 0 where
  deduplication transaction_failure : CounterKind

-- A counter that is not there counts from 0.
abbrev pub increment_job_counter : ClosureJob → CounterKind → ClosureJob
increment_job_counter job CounterKind.deduplication = record job {
  deduplication_count = some (get_or job.deduplication_count 0 + 1);
}
increment_job_counter job CounterKind.transaction_failure = record job {
  transaction_failure_count = some (get_or job.transaction_failure_count 0 + 1);
}

module _ (bull : Bull) where
  unfoldable pub delay_job : ℕ → Job → ℕ → Action bull.State Unit
  delay_job now job delay = bull.move_to_delayed job (now + delay)

  unfoldable pub update_job_counter : Job → CounterKind → Action bull.State Unit
  update_job_counter job kind = bull.update_data job (increment_job_counter job.payload kind)

abbrev pub job_id_of : ClosureJob → Uuid
job_id_of job = job.id

-- The batch job of a slice of the jobs: its ids are in the order that the hashing leaves.
unfoldable pub batch_job : Hashing → ClosureJob → List ClosureJob → ClosureJob
batch_job h first slice =
    let (batch_id, batch_ids) = hash_batch h (map job_id_of slice) in
    record first { id = batch_id; batch_ids = some batch_ids }

-- The loop of `push` over the jobs that are left; `none` means that the fuel ran out, as it does at
-- a batch size of 0, where the loop does not end.
unfoldable pub batch_loop :
    Hashing → ℕ → ClosureJob → ℕ → List ClosureJob → Option (List ClosureJob)
batch_loop h size first zero jobs = none
batch_loop h size first (suc fuel) [] = some []
batch_loop h size first (suc fuel) (j ∷ jobs) =
    let slice = take size (j ∷ jobs) in
    Option.map (◌∷◌ (batch_job h first slice)) (batch_loop h size first fuel (drop size (j ∷ jobs)))

-- With no size the first slice is empty and the index becomes NaN, which ends the loop.
unfoldable pub batch_jobs : Hashing → Option ℕ → List ClosureJob → Option (List ClosureJob)
batch_jobs h size [] = some []
batch_jobs h none (j ∷ jobs) = some (batch_job h j [] ∷ [])
batch_jobs h (some size) (j ∷ jobs) = batch_loop h size j (suc (length (j ∷ jobs))) (j ∷ jobs)

module _ (bull : Bull) (job_options : ExtendedJobOptions) where
  abbrev pub add_options : ClosureJob → AddOptions
  add_options job = record {
    job_options = job_options;
    deduplication_id = job.id;
    ttl = job_options.deduplication_ttl;
  }

  abbrev pub bulk_job : ClosureJob → BulkJob
  bulk_job job = record { name = job.id; payload = job; opts = add_options job }

  unfoldable pub add_job : ClosureJob → Action bull.State Unit
  add_job job = bull.add job.id job (add_options job)

  unfoldable pub add_bulk : List ClosureJob → Action bull.State Unit
  add_bulk bulk = bull.add_bulk (map bulk_job bulk)

  -- The call that a list of jobs leads to; `none` where the batching does not end.
  unfoldable pub push : Hashing → QueueOptions → List ClosureJob → Option (Action bull.State Unit)
  push h options (j ∷ []) = some (add_job j)
  push h options jobs = elim options.enabled_batch_jobs [
    | false ↦ some (add_bulk jobs)
    | true ↦ Option.map add_bulk (batch_jobs h options.max_batch_size jobs)
  ]

  -- The delay of a job that was added once more, while it waits. A job that is no longer delayed,
  -- or whose delay cannot be changed, is added newly; any other error is logged and dropped.
  abbrev pub reschedule : Job → ℕ → Action bull.State Bool
  reschedule job delay =
      try_catch
        (do
          delayed ← bull.is_delayed job
          throw_if (not delayed) other_error
          bull.change_delay job delay
          pure true)
        (λ _. add_job job.payload >> pure false)

  abbrev pub reschedule_found : ℕ → Option Job → Action bull.State Unit
  reschedule_found delay none = pure tt
  reschedule_found delay (some job) = do
    changed ← reschedule job delay
    elim changed [ true ↦ update_job_counter bull job CounterKind.deduplication | false ↦ pure tt ]

  unfoldable pub change_job_delay : Uuid → ℕ → Action bull.State Unit
  change_job_delay job_id delay =
      try_catch (do job ← bull.get_job job_id; reschedule_found delay job) (λ _. pure tt)
