-- ===== src/Jobs.antt =====
-- The durable background jobs: app/shared/jobs/repositories. `Model` is the row and the table,
-- `Create` the idempotent insertion, `Bulk` that of many jobs, `Claim` the leases, `Status` the outcomes, the requeues and the
-- recovery, `Lookup` who may see a job; the modules below them prove what the operations keep.
pub mod Model
pub mod Rows
pub mod Shared
pub mod Flush
pub mod Create
pub mod Bulk
pub mod Claim
pub mod Status
pub mod Invariant
pub mod Steps
pub mod Lookup
pub mod Heartbeats
mod Tests
