-- ===== src/Service.antt =====
-- internal/service: how a node checks and applies the events that it makes or receives.
pub mod Env
pub mod Signature
pub mod Sync
pub mod Validate
pub mod Process
pub mod Handle
