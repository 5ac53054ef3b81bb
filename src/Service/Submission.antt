-- ===== src/Service/Submission.antt =====
-- What Submit guarantees.
pub mod Atomic
pub mod Parts
pub mod Replay
pub mod Created
pub mod Outcome
pub mod Versions
pub mod Refused
