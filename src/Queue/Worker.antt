-- ===== src/Queue/Worker.antt =====
-- `processJobWrapper` of src/queueProvider/workers/bullWorkerProvider.ts.
use osm_sync_tracker.Prelude.{ℕ}
use osm_sync_tracker.Common.Errors.{Error}
use osm_sync_tracker.Common.Action.{Action, throw, try_catch, ◌>>◌}
use osm_sync_tracker.Queue.Bull.{Bull, Job}
use osm_sync_tracker.Queue.Provider.{CounterKind, delay_job, update_job_counter}

-- `on_bull` makes a call to the queue from the worker's own state.
module _ (bull : Bull) {S R : Type 0}
    (on_bull : Action bull.State (Unit {0}) → Action S (Unit {0})) where
  -- A job that fails by its transaction is counted and delayed; any other error is thrown on.
  abbrev pub on_failure : ℕ → ℕ → Job → Error → Action S R
  on_failure now delay job Error.transaction_failure = do
    on_bull (update_job_counter bull job CounterKind.transaction_failure)
    on_bull (delay_job bull now job delay)
    throw Error.delayed
  on_failure now delay job e = throw e

  -- `delay` is drawn from the interval of the options.
  unfoldable pub process_job_wrapper : (Job → Action S R) → ℕ → ℕ → Job → Action S R
  process_job_wrapper process_job now delay job =
      try_catch (process_job job) (on_failure now delay job)
