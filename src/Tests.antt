-- ===== src/Tests.antt =====
-- Concrete rows, requests and worlds, and the theorems at them.
pub mod Data
pub mod Policies
pub mod Tokens
pub mod Requests
pub mod Mcp
pub mod Optimizer
pub mod Servers
pub mod Providers
pub mod Forward
pub mod Admin
