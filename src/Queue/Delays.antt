-- ===== src/Queue/Delays.antt =====
-- The delay of a job that is added again while it waits: `changeJobDelay` of
-- src/queueProvider/queues/bullQueueProvider.ts.
use osm_sync_tracker.Prelude.{
  get_or, ◌+◌, ℕ, Bool, true, false, Option, none, some, List, [], ◌∷◌, ◌≡◌, arith,
}
use osm_sync_tracker.Common.Action.{Result, ok, err}
use osm_sync_tracker.Tables.{Uuid}
use osm_sync_tracker.Queue.Types.{ExtendedJobOptions}
use osm_sync_tracker.Queue.Bull.{Bull, Job}
use osm_sync_tracker.Queue.Notes.{noted, WriteCall}
use osm_sync_tracker.Queue.Provider.{add_job, change_job_delay, update_job_counter}

module _ (b : Bull) where
  abbrev pub has_changed : Result Unit → Bool
  has_changed (ok u) = true
  has_changed (err e) = false

  -- Whether the job still waits and takes the delay.
  abbrev pub takes_delay : Job → ℕ → b.State → Bool
  takes_delay job delay s = elim (b.is_delayed job s).0 [
    | ok true ↦ has_changed (b.change_delay job delay (b.is_delayed job s).1).0
    | ok false ↦ false
    | err e ↦ false
  ]

  abbrev pub write_for : Job → Bool → WriteCall
  write_for job true = WriteCall.updated (record job.payload {
    deduplication_count = some (get_or job.payload.deduplication_count 0 + 1);
  })
  write_for job false = WriteCall.added job.payload

  abbrev pub writes_after : ℕ → b.State → Result (Option Job) → List WriteCall
  writes_after delay s (ok (some job)) = write_for job (takes_delay job delay s) ∷ []
  writes_after delay s (ok none) = []
  writes_after delay s (err e) = []

  module _ (job_options : ExtendedJobOptions) where
    -- A change of a delay never throws, and it writes at most one job: if the queue finds the job,
    -- and it still waits and takes the delay, its counter of deduplications goes up by one; if
    -- it is found and does not, it is added once more; and if it is not found nothing is written.
    pub change_job_delay_lem :
        (job_id : Uuid) (delay : ℕ) (s : b.State)
        → let (result, (_, calls)) = change_job_delay (noted b) job_options job_id delay (s, []) in
          (result ≡ ok tt)
          × (calls ≡ writes_after delay (b.get_job job_id s).1 (b.get_job job_id s).0)
    unfolding change_job_delay add_job update_job_counter
    change_job_delay_lem job_id delay s = ground (arith)
