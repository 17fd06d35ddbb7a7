-- ===== src/Store.antt =====
-- internal/ds/query: what is stored, under which keys, and the commit of the collected changes.
pub mod KeyValue
pub mod Codec
pub mod Counters
pub mod States
pub mod Topics
pub mod Subnets
pub mod Authorizations
pub mod Subscriptions
pub mod Messages
pub mod Events
pub mod Commit
