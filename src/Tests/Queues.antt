-- ===== src/Tests/Queues.antt =====
-- A queue with one job, which waits.
use osm_sync_tracker.Prelude.{none, some, [], ◌∷◌, ◌≡◌}
use osm_sync_tracker.Common.Action.{ok}
use osm_sync_tracker.Queue.Types.{ExtendedJobOptions}
use osm_sync_tracker.Queue.Bull.{Bull, Job}
use osm_sync_tracker.Queue.Provider.{change_job_delay}
use osm_sync_tracker.Queue.Delays.{change_job_delay_lem}
use osm_sync_tracker.Queue.Notes.{noted, WriteCall}
use osm_sync_tracker.Tests.Instances.{bull}
use osm_sync_tracker.Tests.Samples.{job}

abbrev queued : Job
queued = record { job_id = 5; payload = job 10 }

abbrev waiting : Bull
waiting = record bull { get_job = λ id q. (ok (some queued), q) }

abbrev options : ExtendedJobOptions
options = record {
  attempts = none;
  delay = none;
  deduplication_delay = none;
  deduplication_ttl = none;
}

change_job_delay_lem_example :
    ((change_job_delay (noted waiting) options 5 30 ([], [])).0 ≡ ok tt)
    × ((change_job_delay (noted waiting) options 5 30 ([], [])).1.1
        ≡ WriteCall.updated (record (job 10) { deduplication_count = some 1 }) ∷ [])
change_job_delay_lem_example = change_job_delay_lem waiting options 5 30 []
