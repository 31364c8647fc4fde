-- ===== src/Config.antt =====
-- internal/config: the configuration, its validation, its groups, and the strategy names.
pub mod Names
pub mod Types
pub mod Validate
pub mod Groups
pub mod Parse
mod Tests
