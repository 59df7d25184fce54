-- ===== src/Proxy/McpHub/Handler.antt =====
-- crates/central/src/proxy/mcp_hub.rs: `mcp_hub_handler`.
use text.Mathlib.Text.{starts_with}
use oidc_agent_compat.Prelude.{ℕ, String, ◌==◌, Option, none, some, List, if◌then◌else◌}
use oidc_agent_compat.Error.{Error, Result, ok, err}
use oidc_agent_compat.External.{External, object, end}
use oidc_agent_compat.World.{pure, ◌>>=◌, ◌>>◌, attempt}
use oidc_agent_compat.Mcp.JsonRpc.{
  McpError, invalid_utf8, invalid_json_rpc, malformed, batch_unsupported, unknown_method,
  JsonRpcRequest, Parsed, parse_request_body,
}
use oidc_agent_compat.Mcp.Parse.{
  method_initialize, method_tools_list, method_tools_call, method_ping,
}
use oidc_agent_compat.Policy.Mcp.{resolve_mcp_allowed_servers}
use oidc_agent_compat.Proxy.Http.{VerifiedRelayIdentity, Request, Response, Layer}
use oidc_agent_compat.Proxy.Mcp.{request_groups}
use oidc_agent_compat.Proxy.Upstream.{Upstream}
use oidc_agent_compat.Proxy.McpHub.{record_hub_audit, json_rpc_error, json_response, with_body}
use oidc_agent_compat.Proxy.McpHub.Call.{handle_tools_call}
use oidc_agent_compat.Proxy.McpHub.FanOut.{
  handle_tools_list, handle_initialize, broadcast_notification,
}

module _ (x : External) (upstream : Upstream) (elapsed_ms : ℕ) where
  abbrev pub parse_failure : McpError → Response
  parse_failure batch_unsupported = json_rpc_error x 200 "-32600" "invalid request"
  parse_failure invalid_utf8 = json_rpc_error x 400 "-32700" "parse error"
  parse_failure (invalid_json_rpc e) = json_rpc_error x 400 "-32700" "parse error"
  parse_failure (malformed e) = json_rpc_error x 400 "-32700" "parse error"
  parse_failure (unknown_method e) = json_rpc_error x 400 "-32700" "parse error"

  module _ (identity : Option VerifiedRelayIdentity) (raw_body : List ℕ) where
    abbrev groups : List String
    groups = request_groups x identity

    -- the `match` on the method
    unfoldable pub dispatch : JsonRpcRequest → Option (List String) → Layer
    unfolding handle_tools_call handle_tools_list handle_initialize record_hub_audit json_response
        json_rpc_error broadcast_notification
    dispatch req reachable =
        if req.method == method_tools_call
        then handle_tools_call x upstream identity elapsed_ms raw_body groups
        else if req.method == method_tools_list
        then handle_tools_list x upstream identity elapsed_ms raw_body groups reachable
        else if req.method == method_initialize
        then handle_initialize x upstream reachable req.id
        else if req.method == method_ping
        then (do
          record_hub_audit identity req.method "" 200 elapsed_ms none
          pure (json_response x req.id (object end)))
        else if starts_with req.method "notifications/"
        then (do broadcast_notification x upstream groups raw_body; pure (with_body 202 ""))
        else (do
          record_hub_audit identity req.method "" 200 elapsed_ms none
          pure (json_rpc_error x 200 "-32601" "method not found"))

    unfoldable pub dispatch_reachable : JsonRpcRequest → Result Error (Option (List String)) → Layer
    unfolding dispatch record_hub_audit json_rpc_error
    dispatch_reachable req (ok reachable) = dispatch req reachable
    dispatch_reachable req (err e) = do
      record_hub_audit identity req.method "" 403 elapsed_ms none
      pure (json_rpc_error x 403 "-32001" "policy resolution failed")

    unfoldable pub handle_parsed : Parsed → Layer
    unfolding dispatch_reachable json_rpc_error
    handle_parsed (err e) = pure (parse_failure e)
    handle_parsed (ok none) = pure (json_rpc_error x 200 "-32600" "invalid request")
    handle_parsed (ok (some req)) = do
      reachable ← attempt (resolve_mcp_allowed_servers x groups)
      dispatch_reachable req reachable

  -- the argument is what reading the body gives
  unfoldable pub handle_body : Option VerifiedRelayIdentity → Option (List ℕ) → Layer
  unfolding handle_parsed json_rpc_error parse_request_body
  handle_body identity none = pure (json_rpc_error x 400 "-32700" "parse error")
  handle_body identity (some bytes) = handle_parsed identity bytes (parse_request_body x bytes)

  unfoldable pub mcp_hub_handler : Request → Layer
  unfolding handle_body
  mcp_hub_handler request = handle_body request.identity request.body
