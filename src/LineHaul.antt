-- ===== src/LineHaul.antt =====
-- The line-haul network: manifests, vehicles, planning.
pub mod Capacity
pub mod Manifest
pub mod Policy
pub mod History
pub mod Planning
pub mod Booking
pub mod Commands
pub mod Booked
pub mod Planned
pub mod Effects
pub mod PlannedKeeps
pub mod Loading
pub mod LoadingKeeps
pub mod Fits
pub mod Service
pub mod Carried
