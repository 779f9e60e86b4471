-- ===== src/Collect.antt =====
-- What a worker does for a web job: its budget and the two stages.
pub mod Budget
pub mod Search
pub mod Extract
pub mod Allowance
pub mod Fetches
pub mod Searxng
pub mod Providers
