-- ===== src/Fees.antt =====
-- The shipping fee service: what a shipment's fee goes through, from its creation to settlement.
pub mod Table
pub mod Checks
pub mod Audit
pub mod Pending
pub mod Collect
pub mod Reconcile
pub mod Dispute
pub mod Custody
pub mod Steps
pub mod Refinement
pub mod Schedule
