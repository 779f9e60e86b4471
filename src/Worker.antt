-- ===== src/Worker.antt =====
-- The worker service: leases, statuses and the report of a job.
pub mod Leases
pub mod Report
pub mod Service
pub mod Fallback
pub mod Plan
