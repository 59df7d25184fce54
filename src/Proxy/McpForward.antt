-- ===== src/Proxy/McpForward.antt =====
-- crates/central/src/proxy/mcp_forward.rs: the handler behind the MCP permissions middleware.
use mathlib.Core.Option as Opt
use oidc_agent_compat.Prelude.{
  ℕ, String, ◌<>◌, ◌==◌, Bool, false, ◌||◌, Option, none, some, List, ◌++◌, if◌then◌else◌,
}
use oidc_agent_compat.Prelude.Text.{trim_end_char, strip_prefix}
use oidc_agent_compat.Error.{Error, http, Result, ok, err}
use oidc_agent_compat.Entity.{AuditEntry}
use oidc_agent_compat.External.{External, number, string, object, end, field}
use oidc_agent_compat.World.{Exec, pure, raise, ◌>>=◌, ◌>>◌, attempt, map_err}
use oidc_agent_compat.Audit.{record_entry}
use oidc_agent_compat.HttpUtil.{build_forward_headers}
use oidc_agent_compat.Servers.{ResolvedMcpServer, resolve_server}
use oidc_agent_compat.Proxy.Http.{VerifiedRelayIdentity, McpGrant, Request, Response, Layer}
use oidc_agent_compat.Proxy.Permissions.{device_id}
use oidc_agent_compat.Proxy.Upstream.{
  Upstream, Answered, auth_headers, read_reply, send_error, to_response,
}
use oidc_agent_compat.Proxy.McpHub.{with_body}

abbrev pub suffix_of : String → String
suffix_of rest = if rest == "" || rest == "/" then "" else rest

unfoldable pub mcp_path_suffix : String → String → String
unfolding strip_prefix
mcp_path_suffix path server = suffix_of (Opt.get_or (strip_prefix ("/mcp/" <> server) path) path)

abbrev pub subject_or_unknown : Option VerifiedRelayIdentity → String
subject_or_unknown none = "unknown"
subject_or_unknown (some identity) = identity.subject

abbrev pub device_or_relay : Option VerifiedRelayIdentity → String
device_or_relay none = "relay"
device_or_relay (some identity) = device_id identity

abbrev pub and_field :
    (VerifiedRelayIdentity → Option String) → Option VerifiedRelayIdentity → Option String
and_field f none = none
and_field f (some identity) = f identity

abbrev pub and_preview : Option McpGrant → Option String
and_preview none = none
and_preview (some grant) = grant.args_preview

abbrev pub forward_entry :
    Option VerifiedRelayIdentity
    → Option McpGrant
    → (server : String) → (status latency_ms : ℕ) → Bool
    → AuditEntry
forward_entry identity grant server status latency_ms stream = record {
  device_id = device_or_relay identity;
  user_subject = subject_or_unknown identity;
  model = none;
  backend = server;
  status = status;
  latency_ms = latency_ms;
  stream = stream;
  prompt_tokens = none;
  completion_tokens = none;
  total_tokens = none;
  identity_id = and_field (λ i. i.identity_id) identity;
  email = and_field (λ i. i.email) identity;
  groups = and_field (λ i. i.groups) identity;
  endpoint = some ("/mcp/" <> server);
  request_id = and_field (λ i. i.request_id) identity;
  permission_decision = some "allowed";
  denial_reason = none;
  cost_usd = none;
  token_saver_applied = none;
  tokens_saved = none;
  messages_dropped = none;
  saver_reasons = none;
  mcp_server = some server;
  mcp_tool = Opt.map (λ (g : McpGrant). g.tool) grant;
  mcp_method = Opt.map (λ (g : McpGrant). g.method) grant;
  mcp_args_preview = and_preview grant;
}

-- `record_audit`; a failure to write the entry is logged
unfoldable pub record_forward :
    Request → (server : String) → (status latency_ms : ℕ) → Bool → Exec ℕ (Unit {0})
record_forward request server status latency_ms stream = do
  attempt {F = ℕ} (
      record_entry
        (forward_entry request.identity request.mcp_grant server status latency_ms stream))
  pure tt

module _ (x : External) (upstream : Upstream) (elapsed_ms : ℕ) (server : String) where
  -- the argument is what reading the body gives
  unfoldable pub send_body : ResolvedMcpServer → Request → Option (List ℕ) → Exec Error Answered
  unfolding auth_headers read_reply build_forward_headers trim_end_char mcp_path_suffix
  send_body resolved request none = raise (http "read MCP request body")
  send_body resolved request (some bytes) = do
    reply ← map_err send_error (
        upstream (record {
          method = request.method;
          url = trim_end_char b'/' resolved.base_url <> mcp_path_suffix request.path server;
          headers = build_forward_headers request.headers ++ auth_headers x resolved.auth_header;
          body = bytes;
        }))
    read_reply reply reply.body

  unfoldable pub forward_request : ResolvedMcpServer → Request → Exec Error Answered
  unfolding send_body
  forward_request resolved request = send_body resolved request request.body

  abbrev pub forward_error : ℕ → (code message : String) → Response
  forward_error status code message = with_body status (
      x.print_json (
        object (
          field "jsonrpc" (string "2.0") (
            field "error"
              (object (field "code" (number code) (field "message" (string message) end))) end))))

  unfoldable pub forwarded_reply : Request → Result Error Answered → Layer
  unfolding record_forward
  forwarded_reply request (ok answered) = do
    record_forward request server answered.status elapsed_ms answered.stream
    pure (to_response answered)
  forwarded_reply request (err e) = do
    record_forward request server 502 elapsed_ms false
    pure (forward_error 502 "-32603" "upstream MCP request failed")

  unfoldable pub forward_resolved : Request → Result Error (Option ResolvedMcpServer) → Layer
  unfolding forward_request forwarded_reply record_forward
  forward_resolved request (ok (some resolved)) = do
    answer ← attempt (forward_request resolved request)
    forwarded_reply request answer
  forward_resolved request (ok none) =
      pure (forward_error 404 "-32602" "MCP server not found or disabled")
  forward_resolved request (err e) = do
    record_forward request server 502 elapsed_ms false
    pure (forward_error 502 "-32603" "MCP server lookup failed")

  unfoldable pub mcp_handler : Request → Layer
  unfolding forward_resolved
  mcp_handler request = do
    resolved ← attempt (resolve_server x server)
    forward_resolved request resolved
