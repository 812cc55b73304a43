-- ===== src/Service.antt =====
-- The upload service (service/).
pub mod Deletion
pub mod Executor
pub mod Payload
pub mod Reports
mod Examples
