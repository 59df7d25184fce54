-- ===== src/Proxy/McpHub/Call.antt =====
-- crates/central/src/proxy/mcp_hub.rs: `tools/call`.
pub mod Renamed
pub mod Routed
use oidc_agent_compat.Prelude.{
  ℕ, String, ◌<>◌, ◌==◌, Bool, true, false, Option, none, some, List, if◌then◌else◌,
}
use oidc_agent_compat.Error.{Error, Result, ok, err}
use oidc_agent_compat.External.{External, Json, null, string, object, Fields, end, field}
use oidc_agent_compat.World.{World, Exec, pure, ◌>>=◌, ◌>>◌, attempt}
use oidc_agent_compat.Json.{get}
use oidc_agent_compat.Mcp.Hub.{split_tool_name}
use oidc_agent_compat.Mcp.Parse.{ToolCall, Extracted, method_tools_call, extract_tool_call}
use oidc_agent_compat.Policy.Mcp.{resolve_mcp_tool_allowed}
use oidc_agent_compat.Servers.{ResolvedMcpServer, resolve_server}
use oidc_agent_compat.Proxy.Http.{VerifiedRelayIdentity, McpGrant, Response, Layer}
use oidc_agent_compat.Proxy.Mcp.{not_allowed, record_mcp_audit}
use oidc_agent_compat.Proxy.Upstream.{Upstream, Answered, call_upstream, to_response}
use oidc_agent_compat.Proxy.McpHub.{record_hub_audit, json_rpc_error}

-- `obj.insert(key, value)`
unfoldable pub insert_field : String → Json → Fields → Fields
insert_field key value end = field key value end
insert_field key value (field k v fs) =
    let rest = insert_field key value fs in if k == key then field k value fs else field k v rest

unfoldable pub rename_params : String → Json → Json
unfolding insert_field
rename_params tool (object fs) = object (insert_field "name" (string tool) fs)
rename_params tool other = other

-- `get_mut("params")`
unfoldable pub rename_fields : String → Fields → Fields
unfolding rename_params
rename_fields tool end = end
rename_fields tool (field k v fs) =
    let rest = rename_fields tool fs in
    if k == "params" then field k (rename_params tool v) fs else field k v rest

unfoldable pub rename_call : String → Json → Json
unfolding rename_fields
rename_call tool (object fs) = object (rename_fields tool fs)
rename_call tool other = other

abbrev pub or_null_value : Option Json → Json
or_null_value none = null
or_null_value (some v) = v

unfoldable pub rewrite_tool_name : External → List ℕ → String → List ℕ
unfolding rename_call
rewrite_tool_name x raw_body tool =
    x.encode_json (rename_call tool (or_null_value (x.parse_json raw_body)))

abbrev pub missing_prefix : String → String
missing_prefix tool_name = "tool name '" <> tool_name <> "' is missing a '{server}__' prefix"

abbrev pub call_grant : (server tool decision : String) → Option String → Option String → McpGrant
call_grant server tool decision reason args_preview = record {
  server = server;
  method = method_tools_call;
  tool = tool;
  decision = decision;
  reason = reason;
  args_preview = args_preview;
}

unfoldable pub audit_call :
    Option VerifiedRelayIdentity → McpGrant → (status elapsed_ms : ℕ) → Exec ℕ (Unit {0})
unfolding record_mcp_audit
audit_call none grant status elapsed_ms = pure tt
audit_call (some identity) grant status elapsed_ms =
    record_mcp_audit identity grant status elapsed_ms false

module _ (x : External) (upstream : Upstream) (identity : Option VerifiedRelayIdentity)
    (elapsed_ms : ℕ) (raw_body : List ℕ) where
  -- an audit entry of the hub, and an error for the client
  unfoldable pub reject : (tool_name : String) → ℕ → (code message : String) → Layer
  unfolding record_hub_audit json_rpc_error
  reject tool_name status code message = do
    record_hub_audit identity method_tools_call tool_name status elapsed_ms none
    pure (json_rpc_error x status code message)

  module _ (call : ToolCall) (server tool : String) where
    -- what the server answers is handed to the client
    unfoldable pub relay : Result Error Answered → Layer
    unfolding audit_call json_rpc_error
    relay (ok answered) = do
      audit_call identity (call_grant server tool "allowed" none call.args_preview) answered.status
          elapsed_ms
      pure (to_response answered)
    relay (err e) = do
      audit_call identity (call_grant server tool "allowed" none call.args_preview) 502 elapsed_ms
      pure (json_rpc_error x 502 "-32603" "upstream MCP request failed")

    unfoldable pub route : Result Error (Option ResolvedMcpServer) → Layer
    unfolding reject relay call_upstream rewrite_tool_name
    route (ok (some resolved)) = do
      answer ← attempt (call_upstream x upstream resolved (rewrite_tool_name x raw_body tool))
      relay answer
    route (ok none) =
        reject call.tool 404 "-32602" ("MCP server '" <> server <> "' not found or disabled")
    route (err e) = reject call.tool 502 "-32603" "upstream MCP request failed"

    unfoldable pub refuse_tool : Layer
    unfolding audit_call json_rpc_error
    refuse_tool = do
      audit_call identity (call_grant server tool "denied" (some (not_allowed server tool)) none)
          403 elapsed_ms
      pure (json_rpc_error x 403 "-32001" (not_allowed server tool))

    unfoldable pub enforce_tool : Result Error Bool → Layer
    unfolding route refuse_tool reject
    enforce_tool (ok true) = do resolved ← attempt (resolve_server x server); route resolved
    enforce_tool (ok false) = refuse_tool
    enforce_tool (err e) = reject call.tool 403 "-32001" "policy resolution failed"

  unfoldable pub call_named : List String → ToolCall → Option (String × String) → Layer
  unfolding enforce_tool reject
  call_named groups call none = reject call.tool 400 "-32602" (missing_prefix call.tool)
  call_named groups call (some (server, tool)) = do
    allowed ← attempt (resolve_mcp_tool_allowed x groups server tool)
    enforce_tool call server tool allowed

  unfoldable pub call_extracted : List String → Extracted → Layer
  unfolding call_named split_tool_name reject
  call_extracted groups (ok (some call)) = call_named groups call (split_tool_name call.tool)
  call_extracted groups (ok none) = reject "" 400 "-32700" "malformed tools/call"
  call_extracted groups (err e) = reject "" 400 "-32700" "malformed tools/call"

  unfoldable pub handle_tools_call : List String → Layer
  unfolding call_extracted extract_tool_call
  handle_tools_call groups = call_extracted groups (extract_tool_call x raw_body "hub")
