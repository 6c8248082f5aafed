-- ===== src/Ax.antt =====
-- packages/simgadget/src/ax: the accessibility tree as data, and the rules that decide on it.
pub mod Element
pub mod Canonical
pub mod Prune
pub mod Remote
pub mod Geometry
pub mod Locate
pub mod Orientation
pub mod Input
pub mod Match
pub mod Tap
pub mod Probe
pub mod Recovery
