-- ===== src/Tests.antt =====
-- The theorems at concrete inputs.
mod Money
mod Parcels
mod Loads
mod Planning
mod Payments
mod Yard
