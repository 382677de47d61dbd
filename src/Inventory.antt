-- ===== src/Inventory.antt =====
-- The inventory service (services/inventory/app).
pub mod Models
pub mod Session
pub mod Repository
pub mod Seats
pub mod Lock
pub mod Service
pub mod Servicer
pub mod Ledger
pub mod History
pub mod Workers
pub mod Tests
