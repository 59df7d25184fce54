-- ===== src/Mcp.antt =====
-- crates/mcp/src: the parts of the MCP protocol crate that need no network.
pub mod Hub
pub mod Redact
pub mod JsonRpc
pub mod Parse
