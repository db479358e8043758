-- ===== src/Stores.antt =====
-- internal/state/memory: the in-memory stores of jobs and of what ran.
pub mod Executions
pub mod Jobs
mod Tests
