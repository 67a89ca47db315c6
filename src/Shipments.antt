-- ===== src/Shipments.antt =====
-- Which commands a shipment takes in which status.
pub mod Transition
pub mod Lifecycle
