-- ===== src/Queue/Bull.antt =====
-- The calls of bullmq's `Queue` and `Job` that the program makes.
use osm_sync_tracker.Prelude.{ℕ, Bool, Option, List}
use osm_sync_tracker.Common.Action.{Action}
use osm_sync_tracker.Tables.{Uuid}
use osm_sync_tracker.Queue.Types.{ClosureJob, ExtendedJobOptions}

-- `{ ...jobOptions, deduplication: { id, ttl } }`
pub record AddOptions : Type 0 where
  pub job_options : ExtendedJobOptions
  pub deduplication_id : Uuid
  pub ttl : Option ℕ

-- An element of `addBulk`.
pub record BulkJob : Type 0 where
  pub name : Uuid
  pub payload : ClosureJob
  pub opts : AddOptions

-- A job in the queue, under the queue's own id.
pub record Job : Type 0 where
  pub job_id : Uuid
  pub payload : ClosureJob

pub record Bull : Type 1 where
  pub State : Type 0
  pub add : Uuid → ClosureJob → AddOptions → Action State Unit
  pub add_bulk : List BulkJob → Action State Unit
  pub get_job : Uuid → Action State (Option Job)
  pub is_delayed : Job → Action State Bool
  pub change_delay : Job → ℕ → Action State Unit
  pub update_data : Job → ClosureJob → Action State Unit
  pub move_to_delayed : Job → ℕ → Action State Unit
