-- ===== src/Repair.antt =====
-- The owner's repair jobs: the durable store of intakes, jobs and outgoing messages.
pub mod Rows
pub mod Intakes
pub mod Jobs
pub mod Outbox
pub mod Machine
pub mod Writes
pub mod Owner
pub mod Kept
pub mod Once
pub mod Frozen
pub mod Resumption
