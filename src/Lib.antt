-- ===== src/Lib.antt =====
-- Verification of the sync tracker, a service that records syncs of map data to OpenStreetMap.
--
-- The program. A sync has files, a file has entities, and an entity is uploaded in a changeset. The
-- HTTP routes (src/*/routes, src/*/controllers) call the managers (src/*/models), which check a
-- request and call the repositories (src/*/DAL) on a Postgres database. Changesets, files and syncs
-- are closed in the background: the managers push closure jobs to three bullmq queues
-- (src/queueProvider/queues), and the worker of each queue (src/queueProvider/workers) runs a
-- transaction and pushes the jobs of the next queue: changesets lead to files, files to syncs. A
-- failed sync can be rerun, by a transaction of raw SQL statements.
--
-- The model. A table is the list of its rows and the database is a record of five tables, with the
-- primary and foreign keys that the statements check (Tables). A call that may throw is a function
-- from a state to a result and a state (Common/Action): what was written before a throw stays,
-- unless a transaction rolls it back.
--   Common/Enums, Common/Errors      src/common/enums.ts, and the error classes
--   Common/Db, Common/Transactions   src/common/db/transactions.ts
--   Common/Utils, Hashes, Retries    src/common/utils
--   Common/Lodash, Uniq              the calls of lodash, with the documented laws
--   Tables/Rows, Schema              src/*/DAL: the entity classes and their keys
--   Tables/Keys                      the primary keys as a condition
--   Tables/References, Changes       proofs about the foreign keys
--   Sync/Models, Repository          src/sync/models/sync.ts, src/sync/DAL/syncRepository.ts
--   Sync/Rerun                       createRerun and its statements, of the same repository
--   Sync/Manager                     src/sync/models/syncManager.ts
--   Sync/Closure, Creation, Inserted, Numbers, LastRun, Runs, Deletion, Effects, Recorded, History,
--   Latest, Metadata                 proofs about syncs
--   File, Entity, Changeset          the same for the other components (proofs: File/Closure,
--                                    File/Creation, File/Bulk, Entity/Bulk,
--                                    Entity/Updates)
--   Store                            an abstract store of rows by key, for the repositories
--   Queue/Types, Bull, Notes         src/queueProvider/types.ts, and the calls of bullmq
--   Queue/Provider                   bullQueueProvider.ts and helpers.ts (proofs: Queue/Batches,
--                                    Delays)
--   Queue/Closures                   createClosures of the managers
--   Queue/Worker, Workers            src/queueProvider/workers (proofs: Queue/Pipeline, Failures,
--                                    Drain)
--   Queue/Lifecycle                  bullWorkerProvider.ts: the start, the end and the events of a
--                                    worker (proofs: Queue/Balance, Events)
--   Http                             the controllers, and a request type for the routers (proofs:
--                                    Http/Statuses)
--   Wiring                           src/common/dependencyRegistration.ts, src/containerConfig.ts,
--                                    and the tokens (proofs: Wiring/Trace, Cleanup, Overrides)
--   Migrations                       db/migrations: the statements, what they do to a schema, and
--                                    the chain of migrations
--   Invariant                        proofs about every request, and about sequences of requests and
--                                    closure jobs
--   Tests                            the parameters as concrete functions, and a small database
--
-- Numbers. Identifiers and dates are natural numbers: the program only compares them. A delay is a
-- number of milliseconds. The batching of `push` runs on one unit of fuel more than there are jobs,
-- which is enough where the batch size is positive, as every batch then takes a job away.
--
-- Parameters. A transaction (typeorm, typeorm-transactional) either ends as its callback does or
-- fails and writes nothing; it may fail although its callback does not. createRerun inserts the
-- rerun by a call on the repository itself, and not on the manager of its transaction: whether that
-- call stays written when the transaction fails is left open (`keeps_own`). lodash, bullmq,
-- localeCompare and SHA-256 are parameters too.
--
-- The statements of the migrations are SQL, whose meaning follows Postgres; the catalogue has the
-- types, tables, columns, constraints and indexes, and not the rows. The container of tsyringe, the
-- factories that it calls, and bullmq's Worker are parameters of the wiring and of the workers.
--
-- Not modelled: concurrent statements of other transactions, the texts of messages and logs, the
-- metrics of the queues and of failed transactions, tracing, the OpenAPI validation of requests,
-- the express server, the connections to Postgres and Redis, the reading of the configuration, and
-- the signals of the process.
pub mod Prelude
pub mod Common
pub mod Tables
pub mod Sync
pub mod File
pub mod Entity
pub mod Changeset
pub mod Queue
pub mod Http
pub mod Migrations
pub mod Wiring
pub mod Store
pub mod Invariant
pub mod Tests
