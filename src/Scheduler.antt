-- ===== src/Scheduler.antt =====
-- internal/scheduler: which providers can run a task, and in which order they are tried.
pub mod Request
pub mod Matching
pub mod Admission
pub mod Floats
pub mod Ranking
mod Tests
