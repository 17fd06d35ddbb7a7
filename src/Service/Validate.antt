-- ===== src/Service/Validate.antt =====
-- The checks of payloads in internal/service, one file for each kind of state.
pub mod Authorization
pub mod Topic
pub mod Subscription
pub mod Message
pub mod Subnet
