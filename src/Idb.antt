-- ===== src/Idb.antt =====
-- packages/simgadget/src/idb.
pub mod Binary
pub mod Fetching
pub mod Keymap
pub mod Typing
pub mod Companions
pub mod Exclusive
pub mod Calling
pub mod Output
