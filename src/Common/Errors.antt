-- ===== src/Common/Errors.antt =====
-- The error classes of the program: src/common/errors.ts and the errors.ts of each component. The
-- texts of the messages are left out.
use osm_sync_tracker.Prelude.{Option}

-- The code of a `QueryFailedError` of the database: a constraint that a statement breaks, and the
-- failures of a transaction that runs beside others (`TransactionFailure`).
pub data SqlState : Type 0 where
  unique_violation foreign_key_violation : SqlState
  serialization_failure deadlock_detected : SqlState
  other_state : SqlState

pub data SyncError : Type 0 where
  sync_already_exists full_sync_already_exists rerun_already_exists : SyncError
  sync_not_found invalid_sync_for_rerun : SyncError

pub data FileError : Type 0 where
  file_already_exists duplicate_files file_not_found conflicting_rerun_file : FileError

pub data EntityError : Type 0 where
  entity_already_exists duplicate_entity entity_not_found : EntityError

pub data ChangesetError : Type 0 where
  changeset_already_exists changeset_not_found : ChangesetError

-- What a call may throw. `query_failed` has no code where the driver gave none, `delayed` is the
-- queue's `DelayedError`, and `other_error` is an error of any other class.
pub data Error : Type 0 where
  sync_error : SyncError → Error
  file_error : FileError → Error
  entity_error : EntityError → Error
  changeset_error : ChangesetError → Error
  transaction_failure exceeded_number_of_retries : Error
  query_failed : Option SqlState → Error
  delayed other_error : Error
