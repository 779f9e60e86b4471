-- ===== src/Tests.antt =====
-- The theorems at concrete inputs.
mod World
mod Jobs
mod Runs
mod Layers
mod Stages
mod Bridges
mod Repairs
mod Networks
mod Desks
