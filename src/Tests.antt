-- ===== src/Tests.antt =====
-- Concrete runs: the witnesses of the theorems, and the data that they are about.
mod Data
mod Cells
mod Stores
mod Commit
mod Process
mod Facts
mod Validate
mod Handle
mod Rewards
