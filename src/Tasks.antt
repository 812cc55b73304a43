-- ===== src/Tasks.antt =====
-- The executed tasks, their jobs, and the service that follows them: api/advisor/tasks.
pub mod Models
pub mod Status
pub mod Stale
pub mod Outside
pub mod Stdout
pub mod Fetch
pub mod Updates
pub mod Views
mod Examples
