-- ===== src/Dispatch.antt =====
-- internal/dispatch: running a task on the providers that admission ranked.
pub mod Retry
pub mod Attempts
pub mod Runs
pub mod Polling
pub mod Leases
pub mod Leftovers
pub mod Resuming
mod Tests
