-- ===== src/Permissions.antt =====
-- api/advisor/api/permissions.py: permissions, host groups, and the check of a user's roles.
pub mod Permission
pub mod HostGroups
pub mod Roles
pub mod Identity
pub mod Views
pub mod Systems
pub mod Insights
pub mod Checks
mod Examples
mod Samples
