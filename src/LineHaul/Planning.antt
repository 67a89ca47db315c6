-- ===== src/LineHaul/Planning.antt =====
-- The planner of line-haul trips.
pub mod Rules
pub mod Score
pub mod Windows
pub mod Selection
pub mod Best
pub mod Optimal
