-- ===== src/Timer/Tests.antt =====
-- Runs of the header's code on the small codec.
pub mod Data
mod Encodes
mod Calls
pub mod Contexts
mod Trips
mod Memory
mod Bounds
mod Events
