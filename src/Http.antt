-- ===== src/Http.antt =====
-- The HTTP layer of the manager.
pub mod Replies
pub mod Handlers
pub mod Reachable
