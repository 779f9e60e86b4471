-- ===== src/Bridge.antt =====
-- The Discord bridge: its durable ledger of requests, and what it admits.
pub mod Context
pub mod Ledger
pub mod Answers
pub mod Machine
pub mod Writes
pub mod Sound
pub mod Bounds
pub mod Once
pub mod Replies
pub mod Desk
pub mod Intakes
pub mod Inbox
pub mod Admission
pub mod Guests
pub mod Steps
pub mod Working
pub mod Recovery
pub mod Executions
