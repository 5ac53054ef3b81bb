-- ===== src/System.antt =====
-- The server over time: the requests that write, one after another, and what they never break.
pub mod Rows
pub mod Sound
pub mod Requests
pub mod History
