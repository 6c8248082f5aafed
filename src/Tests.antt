-- ===== src/Tests.antt =====
-- The theorems at concrete inputs.
mod Samples
mod Elements
mod Handles
mod Binaries
mod Screens
mod Devices
mod Servers
pub mod Companions
pub mod Runs
