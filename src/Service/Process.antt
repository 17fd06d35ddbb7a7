-- ===== src/Service/Process.antt =====
-- ProcessEvent of internal/service/service.go, one file for each group of its checks.
pub mod Phase
pub mod Logic
pub mod Checks
pub mod Previous
pub mod Auth
pub mod Recency
pub mod Run
pub mod Facts
