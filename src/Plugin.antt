-- ===== src/Plugin.antt =====
-- internal/plugin: what a provider says of itself, and how its failures are classified.
pub mod Capabilities
pub mod Attributes
pub mod Failure
mod Tests
