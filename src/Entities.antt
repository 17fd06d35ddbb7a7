-- ===== src/Entities.antt =====
-- The entities package: what the nodes exchange, store, hash and sign.
pub mod Ids
pub mod Constants
pub mod Records
pub mod Did
pub mod Keys
pub mod Wire
