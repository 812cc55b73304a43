-- ===== src/Inventory.antt =====
-- api/advisor/api/management/commands/advisor_inventory_service.py: the events of the host inventory.
pub mod Events
pub mod Batch
pub mod Stale
pub mod Store
mod Examples
