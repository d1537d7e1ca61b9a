-- ===== src/Common/Transactions.antt =====
-- How a transaction ends: src/common/db/transactions.ts.
use osm_sync_tracker.Common.Errors.{Error}
use osm_sync_tracker.Tables.{Db}
use osm_sync_tracker.Prelude.{◌≡◌, ◌⊎◌, inl, inr, ◌∙◌, sym, ap, refl}
use osm_sync_tracker.Common.Action.{Action, Result, ok, err}
use osm_sync_tracker.Common.Db.{Transactor, IsolationLevel}

module _ {A : Type 0} (t : Transactor) (level : IsolationLevel) (m : Action Db A) (db : Db) where
  outcome :
      (r : Result A) (db' : Db)
      → t.run level m db ≡ (r, db')
      → (t.run level m db ≡ m db) ⊎ ((e : Error) × (t.run level m db ≡ (err e, db)))
  outcome (ok a) db' h = inl (h ∙ sym (t.commits level m db a db' h))
  outcome (err e) db' h = inr (e, h ∙ ap (λ d. (err e, d)) (t.rolls_back level m db e db' h))

  -- It ends as its callback does, or fails with the database as it was.
  pub run-cases : (t.run level m db ≡ m db) ⊎ ((e : Error) × (t.run level m db ≡ (err e, db)))
  run-cases = outcome (t.run level m db).0 (t.run level m db).1 refl
