-- ===== src/Queue/Balance.antt =====
-- How many workers src/queueProvider/workers/bullWorkerProvider.ts constructs and closes.
use osm_sync_tracker.Prelude.{
  ℕ, Bool, Option, none, some, List, [], ◌∷◌, ◌+◌, ◌≡◌, refl, arith, Option-cases, inl, inr,
}
use osm_sync_tracker.Common.Action.{Result, ok, err}
use osm_sync_tracker.Queue.Lifecycle.{
  WorkerClass, WorkerEvent, start, close, emit, BullWorker, create_worker, initial,
}

-- How many workers were constructed, and how many were asked to close.
pub record Asked : Type 0 where
  pub constructed : ℕ
  pub closed : ℕ

abbrev after_construct : {A : Type 0} → Result A → Asked → Asked
after_construct (ok w) a = record a { constructed = a.constructed + 1 }
after_construct (err e) a = a

-- The class with its calls counted.
abbrev pub counted : WorkerClass → WorkerClass
counted c = record {
  Process = c.Process × Asked;
  Worker = c.Worker;
  construct = λ (p, a). let (r, p') = c.construct p in (r, (p', after_construct r a));
  run = λ w (p, a). let (r, p') = c.run w p in (r, (p', a));
  close = λ w (p, a). let (r, p') = c.close w p in (r, (p', record a { closed = a.closed + 1 }));
}

-- What happens to a worker of the program.
pub data WorkerOp : Type 0 where
  start_op close_op : WorkerOp
  event_op : WorkerEvent → WorkerOp

module _ (c : WorkerClass) where
  -- A call that throws leaves its state, and the next one follows.
  abbrev pub apply : WorkerOp → BullWorker c → BullWorker c
  apply start_op b = (start c b).1
  apply close_op b = (close c b).1
  apply (event_op e) b = emit c e b

  abbrev pub apply_all : List WorkerOp → BullWorker c → BullWorker c
  apply_all [] b = b
  apply_all (op ∷ ops) b = apply_all ops (apply op b)

abbrev pub held : {A : Type 0} → Option A → ℕ
held none = 0
held (some w) = 1

module _ (c : WorkerClass) where
  -- Every worker but the one that is held was asked to close.
  abbrev pub IsBalanced : BullWorker (counted c) → Type 0
  IsBalanced b = b.process.1.constructed ≡ b.process.1.closed + held b.worker

  start-IsBalanced :
      (b : BullWorker (counted c)) → IsBalanced b → IsBalanced (start (counted c) b).1
  unfolding start create_worker
  start-IsBalanced b h = elim (Option-cases b.worker) [
    | inl missing ↦ ground (arith, missing, h)
    | inr (w, there) ↦ ground (arith, there, h)
  ]

  close-IsBalanced :
      (b : BullWorker (counted c)) → IsBalanced b → IsBalanced (close (counted c) b).1
  unfolding close
  close-IsBalanced b h = ground (arith, h)

  apply-IsBalanced :
      (op : WorkerOp) (b : BullWorker (counted c))
      → IsBalanced b
      → IsBalanced (apply (counted c) op b)
  unfolding emit
  apply-IsBalanced start_op b h = start-IsBalanced b h
  apply-IsBalanced close_op b h = close-IsBalanced b h
  apply-IsBalanced (event_op e) b h = h

  apply_all-IsBalanced :
      (ops : List WorkerOp) (b : BullWorker (counted c))
      → IsBalanced b
      → IsBalanced (apply_all (counted c) ops b)
  apply_all-IsBalanced [] b h = h
  apply_all-IsBalanced (op ∷ ops) b h =
      apply_all-IsBalanced ops (apply (counted c) op b) (apply-IsBalanced op b h)

  abbrev pub fresh : Bool → c.Process → BullWorker (counted c)
  fresh has_registry process =
      initial (counted c) has_registry (process, record { constructed = 0; closed = 0 })

  -- After any sequence of starts, closes and events of a worker provider, whether or not the calls of
  -- bullmq fail, the number of workers that were constructed is the number of those that were asked
  -- to close, and one more exactly if the provider holds a worker.
  pub lifecycle-IsBalanced :
      (has_registry : Bool) (process : c.Process) (ops : List WorkerOp)
      → IsBalanced (apply_all (counted c) ops (fresh has_registry process))
  unfolding initial
  lifecycle-IsBalanced has_registry process ops =
      apply_all-IsBalanced ops (fresh has_registry process) refl
