-- ===== src/Service/Handle.antt =====
-- The handlers of events in internal/service: HandleNewPubSubEvent and one function for each kind of
-- state.
pub mod Step
pub mod Common
pub mod Auth
pub mod Topic
pub mod Subscription
pub mod Message
pub mod Subnet
pub mod Dispatch
