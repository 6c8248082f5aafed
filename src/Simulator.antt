-- ===== src/Simulator.antt =====
-- packages/simgadget/src/simulator.ts: the handle.
pub mod Recovery
pub mod Reading
pub mod Tapping
pub mod Orienting
pub mod Describing
pub mod Finding
pub mod Ladder
pub mod Pointing
pub mod Sizing
pub mod Recording
pub mod Calls
pub mod Verbs
pub mod Inputs
pub mod Using
