-- ===== src/Inventory.antt =====
-- services/inventory-service: stock movements and what calls them.
pub mod Model
pub mod Rules
pub mod Movement
pub mod Events
pub mod Ingest
pub mod Legs
pub mod Production
pub mod Runs
mod Examples
