-- ===== src/Pricing.antt =====
-- The shipping quote and the versions of its configuration
-- (backend/src/modules/pricing/pricing.service.ts).
pub mod Quote
pub mod Bounds
pub mod Configs
pub mod Activation
