-- ===== src/Queue/Lifecycle.antt =====
-- src/queueProvider/workers/bullWorkerProvider.ts: how a worker is started, closed and measured. The
-- logs are left out.
use osm_sync_tracker.Prelude.{
  ℕ, ltb, Bool, false, Option, none, some, List, [], ◌∷◌, ◌+◌, if◌then◌else◌,
}
use mathlib.Core.Option
use osm_sync_tracker.Common.Action.{Action, ok, ◌>>=◌, ◌>>◌}

-- bullmq's `Worker`, over the state of the process.
pub record WorkerClass : Type 1 where
  pub Process : Type 0
  pub Worker : Type 0
  pub construct : Action Process Worker
  pub run : Worker → Action Process Unit
  pub close : Worker → Action Process Unit

-- The counters of the registry. A duration is kept as its two ends.
pub record WorkerMetrics : Type 0 where
  pub completed : ℕ
  pub retry : ℕ
  pub failed : ℕ
  pub stalled : ℕ
  pub transaction_failure : ℕ
  pub internal_errors : ℕ
  pub durations : List (ℕ × ℕ)

abbrev pub no_counts : WorkerMetrics
no_counts = record {
  completed = 0;
  retry = 0;
  failed = 0;
  stalled = 0;
  transaction_failure = 0;
  internal_errors = 0;
  durations = [];
}

-- `opts.attempts` and `attemptsMade` of a job.
pub record Attempts : Type 0 where
  pub attempts : Option ℕ
  pub attempts_made : ℕ

-- A completed job comes with `finishedOn` and `processedOn`; a failed one may be missing.
pub data WorkerEvent : Type 0 where
  completed : Option ℕ → Option ℕ → WorkerEvent
  failed : Option Attempts → WorkerEvent
  stalled : WorkerEvent
  error : WorkerEvent

abbrev pub observe : Option ℕ → Option ℕ → WorkerMetrics → WorkerMetrics
observe (some finished_on) (some processed_on) m = record m {
  durations = (finished_on, processed_on) ∷ m.durations;
}
observe _ _ m = m

-- Whether the job has attempts left.
abbrev pub has_retry : Option Attempts → Bool
has_retry none = false
has_retry (some a) = elim a.attempts [ none ↦ false | some n ↦ ltb a.attempts_made n ]

abbrev pub on_event : WorkerEvent → WorkerMetrics → WorkerMetrics
on_event (WorkerEvent.completed finished_on processed_on) m =
    observe finished_on processed_on (record m { completed = m.completed + 1 })
on_event (WorkerEvent.failed job) m =
    if has_retry job then record m { retry = m.retry + 1 } else record m { failed = m.failed + 1 }
on_event WorkerEvent.stalled m = record m { stalled = m.stalled + 1 }
on_event WorkerEvent.error m = record m { internal_errors = m.internal_errors + 1 }

abbrev pub count_transaction_failure : WorkerMetrics → WorkerMetrics
count_transaction_failure m = record m { transaction_failure = m.transaction_failure + 1 }

module _ (c : WorkerClass) where
  -- There are metrics where there is a registry.
  pub record BullWorker : Type 0 where
    pub process : c.Process
    pub worker : Option c.Worker
    pub metrics : Option WorkerMetrics

  unfoldable pub initial : Bool → c.Process → BullWorker
  initial has_registry process = record {
    process = process;
    worker = none;
    metrics = if has_registry then some no_counts else none;
  }

  abbrev in_process : {A : Type 0} → Action c.Process A → Action BullWorker A
  in_process m b = let (r, process) = m b.process in (r, record b { process = process })

  abbrev hold : Option c.Worker → Action BullWorker (Unit {0})
  hold w b = (ok tt, record b { worker = w })

  unfoldable pub create_worker : Action BullWorker (Unit {0})
  create_worker = in_process c.construct >>= λ w. hold (some w)

  abbrev pub run_worker : Action BullWorker (Unit {0})
  run_worker b = elim b.worker [ none ↦ (ok tt, b) | some w ↦ in_process (c.run w) b ]

  unfoldable pub start : Action BullWorker (Unit {0})
  start b = elim b.worker [ none ↦ (create_worker >> run_worker) b | some w ↦ run_worker b ]

  -- `finally`: the worker is let go whether or not it could be closed.
  unfoldable pub close : Action BullWorker (Unit {0})
  close b = elim b.worker [
    | none ↦ (ok tt, b)
    | some w ↦ let (r, b') = in_process (c.close w) b in (r, record b' { worker = none })
  ]

  -- An event reaches the listeners that `create_worker` sets up.
  unfoldable pub emit : WorkerEvent → BullWorker → BullWorker
  emit e b = record b { metrics = Option.map (on_event e) b.metrics }
