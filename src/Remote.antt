-- ===== src/Remote.antt =====
-- The collector that sends its stages to the manager as jobs.
pub mod Collector
pub mod Polling
pub mod Allocation
