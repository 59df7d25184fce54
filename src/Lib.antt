-- ===== src/Lib.antt =====
-- oidc_agent_compat: the central proxy of an OIDC front for AI agents, and the parts of it that
-- decide who may do what. Agents talk to a relay; the relay forwards their requests to the central
-- proxy, which checks the bearer token, applies the policies of the user's groups, counts usage,
-- writes an audit log and forwards to a backend.
--
-- The parts, and where each is modelled:
--   Error         crates/common/src/error.rs, the error values of both proxies
--   Entity        crates/central/src/entity, the rows of the database
--   World         the database, the clock and the supply of random names as a state, and the monad
--                 of the asynchronous methods; time_util of crates/common
--   Float         the operations of f64, as parameters
--   External      what other packages provide (serde_json, SHA-256, SQLite's sums), as parameters
--   Json          extract_model of crates/common/src/http_util.rs
--   HttpUtil      the rest of crates/common/src/http_util.rs
--   Keys          crates/common/src/keys.rs
--   Policy        crates/central/src/policy.rs: Merge is the loop of resolve_policy, Store the table
--                 of group policies, Mcp the tool policies
--   Usage         crates/central/src/usage.rs
--   Token         crates/central/src/token_store.rs
--   Device        crates/central/src/device_store.rs
--   Audit         AuditLogger::record of crates/central/src/audit.rs
--   Proxy         crates/central/src/proxy: Auth is auth_middleware, Permissions is
--                 permissions_middleware with deny, Tokens the handlers of the token routes,
--                 Mcp is mcp_permissions.rs, McpForward mcp_forward.rs, McpHub mcp_hub.rs (Call is
--                 tools/call, FanOut what goes to several servers, Handler the dispatch), Upstream
--                 the exchange with a server, Forward is forward.rs (Retry the loop over the keys,
--                 Stream what is read from a stream, Accounting the counters and the audit entry,
--                 Handler the rest), RateLimit rate_limit.rs
--   Mcp           crates/mcp/src: Hub is hub.rs, JsonRpc is jsonrpc.rs with errors.rs, Parse is
--                 parse.rs with protocol.rs, Redact its redaction
--   Servers       crates/central/src/mcp.rs, the registry of MCP servers
--   Providers     crates/central/src/provider.rs, Access the access lists of
--                 its keys, Keys the keys, Defaults the default provider
--   Pricing       crates/central/src/pricing.rs
--   Admin         crates/central/src/admin.rs: Auth is its middleware, Routes the router, Policies,
--                 Devices, Providers, Keys and Servers the handlers, Reports those of the reports
--   Optimizer     crates/central/src/optimizer.rs: Ansi and Lines are its two functions on texts,
--                 Messages the passes that look at each message, Budget the pass over the turns,
--                 Prompt is optimize_prompt
--   Tests         concrete rows and requests, and the theorems at them
--
-- How the code corresponds. A method of a store is a function of the same name into `Exec`, which
-- takes the world and gives a result and the next world; an SQL statement is one step `execute`,
-- `query` or `write`, which runs or fails as the list `faults` of the world says, and changes
-- nothing when it fails. Statements of different requests can be interleaved only between steps; a
-- theorem about one method is about one request, and Usage.Count about a sequence of them. A
-- middleware takes the rest of the service as an argument (`Next`); a theorem that speaks of
-- requests that are handed on holds for every such rest.
--
-- Numbers. A time is a number of nanoseconds since the epoch, stored rows keep whole seconds
-- (`format_time`). Signed 64-bit columns are integers: the counters grow by one or by a request's
-- tokens and are compared, minima and maxima are taken, and none of this leaves the range; the one
-- conversion that can wrap, to u64 in the budget, is written out (`as_u64`). A lifetime that leads
-- beyond the year 9999 is the panic that it is in the code. An f64 is its bits, and its arithmetic a
-- parameter. Texts and counts of what is in memory stay below 2^64.
--
-- Fuel. The decimal digits of a number n are printed with n + 1 rounds, which Prelude.Decimal shows to
-- be enough; the loop over the lines of a stream's buffer has as many rounds as the buffer has
-- bytes, each of which takes a byte at least; the loop over a provider's keys has as many as there
-- are keys in the table, each of which uses up a key. Nothing else runs on fuel.
--
-- Not modelled: the transport (TLS, HTTP), log output, the schema statements, whose unique keys are
-- hypotheses where a theorem needs them, the order of the layers in the proxy's router,
-- the rendering of the admin interface's answers as JSON, and the relay.
pub mod Prelude
pub mod Error
pub mod Entity
pub mod World
pub mod External
pub mod Float
pub mod Json
pub mod Policy
pub mod Mcp
pub mod Usage
pub mod Keys
pub mod Token
pub mod Device
pub mod Audit
pub mod Optimizer
pub mod Servers
pub mod HttpUtil
pub mod Providers
pub mod Pricing
pub mod Proxy
pub mod Admin
pub mod Tests
