-- ===== src/Cod.antt =====
-- Cash on delivery: the driver's handover to the company, and the payout to the customer.
pub mod Checks
pub mod Handover
pub mod Payout
pub mod Invariant
pub mod Guards
pub mod HandoverKeeps
pub mod PayoutKeeps
pub mod Service
