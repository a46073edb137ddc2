-- ===== src/Tests.antt =====
-- Runs of the theorems at concrete inputs.
mod Carrier
mod Exit
mod Handlers
mod Side
mod Streams
mod Sessions
mod Carriers
pub mod Samples
