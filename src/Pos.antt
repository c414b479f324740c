-- ===== src/Pos.antt =====
-- services/pos-service: sales, deliveries, voids and refunds, couriers, and the tax of a store.
pub mod Decimal
pub mod Tax
pub mod Model
pub mod Sync
pub mod Couriers
pub mod Delivery
pub mod Void
pub mod History
mod Examples
