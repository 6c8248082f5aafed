-- ===== src/Lifecycle.antt =====
-- packages/simgadget/src/lifecycle.ts.
pub mod Devices
pub mod Boot
pub mod Printed
pub mod Making
pub mod BootStatus
