-- ===== src/Mcp.antt =====
-- packages/simgadget-mcp/src: the server.
pub mod Sessions
pub mod Env
pub mod Transport
pub mod Paths
