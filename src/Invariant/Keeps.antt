-- ===== src/Invariant/Keeps.antt =====
-- Calls that keep an invariant of the database.
use mathlib.Core.Path.{subst}
use osm_sync_tracker.Prelude.{◌≡◌, refl}
use osm_sync_tracker.Common.Action.{Action, Result, ok, err}
use osm_sync_tracker.Common.Db.{Transactor, IsolationLevel}
use osm_sync_tracker.Tables.{Db}

abbrev pub Keeps : (Db → Type 0) → {A : Type 0} → Action Db A → Type 0
Keeps I m = (db : Db) → I db → I (m db).1

module _ {I : Db → Type 0} where
  module _ {A : Type 0} (t : Transactor) (level : IsolationLevel) (m : Action Db A) where
    run_result :
        (r : Result A) (db db' : Db) → Keeps I m → I db → t.run level m db ≡ (r, db') → I db'
    run_result (ok a) db db' keep k e =
        subst (λ (x : Result A × Db). I x.1) (t.commits level m db a db' e) (keep db k)
    run_result (err x) db db' keep k e = rw (t.rolls_back level m db x db' e) k

    -- A transaction ends as its callback does, or writes nothing.
    pub run-Keeps : Keeps I m → Keeps I (t.run level m)
    run-Keeps keep db k = run_result (t.run level m db).0 db (t.run level m db).1 keep k refl
