-- ===== src/Queue/Events.antt =====
-- What the listeners of src/queueProvider/workers/bullWorkerProvider.ts count.
use osm_sync_tracker.Prelude.{
  Bool, true, false, none, some, List, [], ◌∷◌, ◌+◌, ◌≡◌, refl, arith, inl, inr, count, ltb,
  Option-cases, length,
}
use osm_sync_tracker.Queue.Lifecycle.{WorkerEvent, WorkerMetrics, on_event}

abbrev pub is_completed : WorkerEvent → Bool
is_completed (WorkerEvent.completed f p) = true
is_completed _ = false

abbrev pub is_measured : WorkerEvent → Bool
is_measured (WorkerEvent.completed (some f) (some p)) = true
is_measured _ = false

-- A failed job with more attempts than were made.
abbrev pub is_retried : WorkerEvent → Bool
is_retried (WorkerEvent.failed (some a)) = elim a.attempts [
  | none ↦ false
  | some n ↦ ltb a.attempts_made n
]
is_retried _ = false

abbrev pub is_failed : WorkerEvent → Bool
is_failed (WorkerEvent.failed job) = true
is_failed _ = false

abbrev pub is_stalled : WorkerEvent → Bool
is_stalled WorkerEvent.stalled = true
is_stalled _ = false

abbrev pub is_error : WorkerEvent → Bool
is_error WorkerEvent.error = true
is_error _ = false

-- What the metrics hold after the events, beyond what they held before.
pub record Counts (es : List WorkerEvent) (m m' : WorkerMetrics) : Type 0 where
  pub completed : m'.completed ≡ m.completed + count is_completed es
  pub measured : length m'.durations ≡ length m.durations + count is_measured es
  pub retried : m'.retry ≡ m.retry + count is_retried es
  pub failed : m'.retry + m'.failed ≡ m.retry + m.failed + count is_failed es
  pub stalled : m'.stalled ≡ m.stalled + count is_stalled es
  pub errors : m'.internal_errors ≡ m.internal_errors + count is_error es
  pub untouched : m'.transaction_failure ≡ m.transaction_failure

abbrev pub on_events : List WorkerEvent → WorkerMetrics → WorkerMetrics
on_events [] m = m
on_events (e ∷ es) m = on_events es (on_event e m)

Counts-more :
    (e : WorkerEvent) (es : List WorkerEvent) (m m' : WorkerMetrics)
    → Counts es (on_event e m) m'
    → Counts (e ∷ es) m m'
Counts-more (WorkerEvent.completed none p) es m m' c = ground (arith, c)
Counts-more (WorkerEvent.completed (some f) none) es m m' c = ground (arith, c)
Counts-more (WorkerEvent.completed (some f) (some p)) es m m' c = ground (arith, c)
Counts-more (WorkerEvent.failed none) es m m' c = ground (arith, c)
Counts-more (WorkerEvent.failed (some a)) es m m' c = elim (Option-cases a.attempts) [
  | inl unset ↦ ground (arith, c)
  | inr (n, set) ↦ ground (arith, c)
]
Counts-more WorkerEvent.stalled es m m' c = ground (arith, c)
Counts-more WorkerEvent.error es m m' c = ground (arith, c)

-- Each event is counted once: a completed job as completed, and its duration where both ends are
-- known; a failed job as a retry if it has more attempts than it made, and else as failed; a stalled
-- job and an internal error as such. The transaction failures are not counted by events.
pub on_events-Counts : (es : List WorkerEvent) (m : WorkerMetrics) → Counts es m (on_events es m)
on_events-Counts [] m = record {
  completed = omega arith;
  measured = omega arith;
  retried = omega arith;
  failed = omega arith;
  stalled = omega arith;
  errors = omega arith;
  untouched = refl;
}
on_events-Counts (e ∷ es) m =
    Counts-more e es m (on_events (e ∷ es) m) (on_events-Counts es (on_event e m))
