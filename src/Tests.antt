-- ===== src/Tests.antt =====
-- Concrete instances of what the model takes as parameters, and runs of the model on a small
-- database.
mod Instances
mod Samples
mod Queues
mod Bulk
mod SyncRuns
mod Jobs
mod Statuses
mod Wiring
mod Workers
mod Stores
mod References
mod Migrations
