-- ===== src/Contract.antt =====
-- The data that Manager and workers exchange (src/ephy_worker/contracts.py, schema.py).
-- Times and durations are milliseconds. Identifiers, digests and snowflakes are numbers: an
-- injective coding of their texts that keeps the order of texts.
pub mod Limits
pub mod Input
pub mod Observation
pub mod Result
