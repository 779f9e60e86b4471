-- ===== src/Fetch.antt =====
-- The fetcher of public pages.
pub mod Urls
pub mod Documents
pub mod Fetcher
pub mod Steps
pub mod Requests
