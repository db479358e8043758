-- ===== src/Quota.antt =====
-- internal/quota: what an execution charges, and the pools it is charged to.
pub mod Meter
pub mod Limits
mod Tests
