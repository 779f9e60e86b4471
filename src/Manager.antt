-- ===== src/Manager.antt =====
-- The job queue, worker registry and artifact store (src/ephy_worker/manager.py, class `Manager`).
-- Every method runs under one lock, so a run of the manager is a sequence of calls.
pub mod Tables
pub mod Workers
pub mod Queue
pub mod Submission
pub mod Lease
pub mod Activity
pub mod Observations
pub mod Retention
pub mod Finalization
pub mod Artifacts
pub mod Sweeper
pub mod Run
pub mod Writes
pub mod Lifecycle
pub mod Consistency
pub mod Keys
pub mod Cancellation
pub mod Claims
pub mod Idempotence
pub mod Endings
pub mod Sweeps
pub mod Uploads
pub mod Retries
pub mod Children
