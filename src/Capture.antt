-- ===== src/Capture.antt =====
-- packages/simgadget/src/capture.ts: screenshots.
pub mod Args
pub mod Pipeline
pub mod Rotation
