-- ===== src/Common/Db.antt =====
-- src/common/db: the shape of `RETURNING`, and transactions (transactions.ts).
use osm_sync_tracker.Prelude.{ℕ, Bool, true, false, some, List, ◌≡◌, if◌then◌else◌}
use osm_sync_tracker.Common.Errors.{Error, SqlState, query_failed}
use osm_sync_tracker.Common.Action.{Action, ok, err, throw, try_catch}
use osm_sync_tracker.Tables.{Db}

-- The returned rows, and the number of rows affected.
abbrev pub ReturningResult : Type 0 → Type 0
ReturningResult A = List A × ℕ

pub data IsolationLevel : Type 0 where
  read_uncommitted read_committed repeatable_read serializable : IsolationLevel

-- What `runInTransaction` (typeorm-transactional) and `connection.transaction` (typeorm) do with
-- the calls of a callback.
pub record Transactor : Type 1 where
  pub run : {A : Type 0} → IsolationLevel → Action Db A → Action Db A
  -- Whether a call that the callback makes on the repository's own manager, and not on that of the
  -- transaction, stays written if the transaction fails from this database: it does where the
  -- manager has not joined the transaction and the call came before the failure.
  pub keeps_own : Db → Bool
  -- A transaction that returns has run its callback, and keeps what that wrote.
  pub commits :
      {A : Type 0} (level : IsolationLevel) (m : Action Db A) (db : Db) (a : A) (db' : Db)
      → run level m db ≡ (ok a, db')
      → m db ≡ (ok a, db')
  -- A transaction that fails writes nothing.
  pub rolls_back :
      {A : Type 0} (level : IsolationLevel) (m : Action Db A) (db : Db) (e : Error) (db' : Db)
      → run level m db ≡ (err e, db')
      → db' ≡ db
  -- What the callback throws is thrown on.
  pub rethrows :
      {A : Type 0} (level : IsolationLevel) (m : Action Db A) (db : Db) (e : Error) (db' : Db)
      → m db ≡ (err e, db')
      → run level m db ≡ (err e, db)

unfoldable pub is_transaction_failure : Error → Bool
is_transaction_failure (query_failed (some SqlState.serialization_failure)) = true
is_transaction_failure (query_failed (some SqlState.deadlock_detected)) = true
is_transaction_failure _ = false

-- The `catch` of a transaction: its failures are renamed, all else is thrown on.
unfoldable pub rename_failure : {A : Type 0} → Error → Action Db A
rename_failure e = throw (if is_transaction_failure e then Error.transaction_failure else e)

unfoldable pub transactionify :
    Transactor → {A : Type 0} → IsolationLevel → Action Db A → Action Db A
transactionify t level m = try_catch (t.run level m) rename_failure
