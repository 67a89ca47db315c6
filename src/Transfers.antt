-- ===== src/Transfers.antt =====
-- Transfers between warehouses.
pub mod Flow
pub mod Tables
pub mod Dispatch
pub mod Receive
pub mod Reads
pub mod Placement
pub mod Guards
pub mod Arrivals
pub mod Deliveries
pub mod Notified
