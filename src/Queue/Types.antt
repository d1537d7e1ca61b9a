-- ===== src/Queue/Types.antt =====
-- src/queueProvider/types.ts, interfaces.ts and queues/options/index.ts. An instant or a delay is a
-- number of milliseconds.
use osm_sync_tracker.Prelude.{ℕ, Bool, Option, none, List}
use osm_sync_tracker.Common.Action.{Action}
use osm_sync_tracker.Tables.{Uuid}

pub data ClosureKind : Type 0 where
  changeset file sync : ClosureKind

-- `ClosureJob` and `BatchClosureJob`, with the counters that a job may gather.
pub record ClosureJob : Type 0 where
  pub id : Uuid
  pub kind : ClosureKind
  pub batch_ids : Option (List Uuid)
  pub deduplication_count : Option ℕ
  pub transaction_failure_count : Option ℕ

abbrev pub closure_job : ClosureKind → Uuid → ClosureJob
closure_job kind id = record {
  id = id;
  kind = kind;
  batch_ids = none;
  deduplication_count = none;
  transaction_failure_count = none;
}

pub record ClosureReturn : Type 0 where
  pub closed_count : Option ℕ
  pub closed_ids : Option (List Uuid)
  pub invoked_job_count : ℕ
  pub invoked_jobs : List ClosureJob

pub record QueueOptions : Type 0 where
  pub enabled_batch_jobs : Bool
  pub max_batch_size : Option ℕ

pub record ExtendedJobOptions : Type 0 where
  pub attempts : Option ℕ
  pub delay : Option ℕ
  pub deduplication_delay : Option ℕ
  pub deduplication_ttl : Option ℕ

-- `JobQueueProvider`, over the state of the queue that it fills.
pub record JobQueueProvider (Q : Type 0) : Type 0 where
  pub push : List ClosureJob → Action Q Unit
