-- ===== src/Zeytun.antt =====
-- client/zeytun.c: reading Zeytun pages over HTTP.
pub mod Coding
pub mod Pages
pub mod Fetching
mod Examples
