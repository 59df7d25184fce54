-- ===== src/Proxy.antt =====
-- crates/central/src/proxy: the middleware and the token handlers of the central proxy.
pub mod Http
pub mod Auth
pub mod Permissions
pub mod Tokens
pub mod Mcp
pub mod Upstream
pub mod McpHub
pub mod McpForward
pub mod Forward
pub mod RateLimit
