-- ===== src/Proxy/McpHub.antt =====
-- crates/central/src/proxy/mcp_hub.rs: the endpoint /mcp, which combines all servers.
pub mod Call
pub mod FanOut
pub mod Handler
use oidc_agent_compat.Prelude.{
  ℕ, String, ◌<>◌, Bool, true, false, ◌&&◌, Option, none, some, List, leb, if◌then◌else◌,
}
use oidc_agent_compat.External.{External, Json, null, number, string, object, Fields, end, field}
use oidc_agent_compat.World.{Exec, pure}
use oidc_agent_compat.Proxy.Http.{VerifiedRelayIdentity, McpGrant, Response, Body, other}
use oidc_agent_compat.Proxy.Mcp.{record_mcp_audit}

-- `status.is_success()`
abbrev pub is_success : ℕ → Bool
is_success status = leb 200 status && leb status 299

abbrev pub hub_grant : (method tool : String) → ℕ → Option String → McpGrant
hub_grant method tool status remark = record {
  server = "hub";
  method = method;
  tool = tool;
  decision = if is_success status then "allowed" else "denied";
  reason = remark;
  args_preview = none;
}

-- The time that the request has taken is `elapsed_ms`.
unfoldable pub record_hub_audit :
    Option VerifiedRelayIdentity
    → (method tool : String) → (status elapsed_ms : ℕ) → Option String
    → Exec ℕ (Unit {0})
unfolding record_mcp_audit
record_hub_audit none method tool status elapsed_ms remark = pure tt
record_hub_audit (some identity) method tool status elapsed_ms remark =
    record_mcp_audit identity (hub_grant method tool status remark) status elapsed_ms false

abbrev pub with_body : ℕ → String → Response
with_body status body = record { status = status; retry_after = none; body = other body }

-- the code is its printed text
unfoldable pub json_rpc_error : External → ℕ → (code message : String) → Response
json_rpc_error x status code message = with_body status (
    x.print_json (
      object (
        field "jsonrpc" (string "2.0") (
          field "id" null (
            field "error"
              (object (field "code" (number code) (field "message" (string message) end))) end)))))

abbrev pub or_null : Option Json → Json
or_null none = null
or_null (some v) = v

unfoldable pub json_response : External → Option Json → Json → Response
json_response x id result = with_body 200 (
    x.print_json (
      object
        (field "jsonrpc" (string "2.0") (field "id" (or_null id) (field "result" result end)))))
