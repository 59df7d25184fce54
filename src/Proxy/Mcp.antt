-- ===== src/Proxy/Mcp.antt =====
-- crates/central/src/proxy/mcp_permissions.rs: the middleware of the routes /mcp/{server}.
pub mod Enforced
use mathlib.Core.Option as Opt
use oidc_agent_compat.Prelude.{
  ℕ, ◌+◌, ◌-◌, ◌*◌, String, ◌<>◌, ◌==◌, Bool, true, false, ◌&&◌, ◌||◌, Option, none, some, List, [],
  ◌∷◌, leb, eqb, if◌then◌else◌,
}
use oidc_agent_compat.Prelude.Text.{has_char, strip_prefix}
use oidc_agent_compat.Prelude.Utf8.{as_bytes, from_utf8_lossy}
use oidc_agent_compat.Error.{Error, Result, ok, err}
use oidc_agent_compat.Entity.{AuditEntry}
use oidc_agent_compat.External.{External, Json, number, string, object, Fields, end, field}
use oidc_agent_compat.World.{World, Exec, pure, raise, ◌>>=◌, ◌>>◌, attempt}
use oidc_agent_compat.Audit.{record_entry}
use oidc_agent_compat.Policy.Mcp.{resolve_mcp_tool_allowed, resolve_mcp_has_any_tool}
use oidc_agent_compat.Mcp.JsonRpc.{
  McpError, invalid_utf8, invalid_json_rpc, malformed, batch_unsupported, unknown_method,
}
use oidc_agent_compat.Mcp.Parse.{ToolCall, Extracted, method_tools_call, extract_tool_call}
use oidc_agent_compat.Proxy.Http.{
  VerifiedRelayIdentity, McpGrant, Request, Response, Body, other, Next, Layer, run,
}
use oidc_agent_compat.Proxy.Permissions.{device_id, groups_of}

unfoldable pub hex_val : ℕ → Option ℕ
hex_val b =
    if leb b'0' b && leb b b'9'
    then some (b - b'0')
    else if leb b'a' b && leb b b'f'
    then some (b - b'a' + 10)
    else if leb b'A' b && leb b b'F'
    then some (b - b'A' + 10)
    else none

abbrev pub both_digits : Option ℕ → Option ℕ → Option ℕ
both_digits (some hi) (some lo) = some (hi * 16 + lo)
both_digits _ _ = none

-- the byte that `%` and two digits stand for
unfoldable pub escaped : ℕ → ℕ → ℕ → Option ℕ
unfolding hex_val
escaped b h l = if eqb b b'%' then both_digits (hex_val h) (hex_val l) else none

-- the loop over the bytes
unfoldable pub percent_bytes : List ℕ → List ℕ
unfolding escaped
percent_bytes [] = []
percent_bytes (b ∷ []) = b ∷ []
percent_bytes (b ∷ h ∷ []) = b ∷ percent_bytes (h ∷ [])
percent_bytes (b ∷ h ∷ l ∷ more) = elim (escaped b h l) [
  | none ↦ b ∷ percent_bytes (h ∷ l ∷ more)
  | some byte ↦ byte ∷ percent_bytes more
]

unfoldable pub percent_decode : String → String
unfolding percent_bytes as_bytes from_utf8_lossy
percent_decode s = from_utf8_lossy (percent_bytes (as_bytes s))

unfoldable pub server_segment : Option String → Option String
unfolding percent_decode has_char
server_segment none = none
server_segment (some rest) =
    if rest == "" || has_char b'/' rest then none else some (percent_decode rest)

unfoldable pub parse_server_path : String → Option String
unfolding server_segment strip_prefix
parse_server_path path = server_segment (strip_prefix "/mcp/" path)

abbrev pub mcp_entry :
    VerifiedRelayIdentity → McpGrant → (status latency_ms : ℕ) → Bool → AuditEntry
mcp_entry identity grant status latency_ms stream = record {
  device_id = device_id identity;
  user_subject = identity.subject;
  model = none;
  backend = grant.server;
  status = status;
  latency_ms = latency_ms;
  stream = stream;
  prompt_tokens = none;
  completion_tokens = none;
  total_tokens = none;
  identity_id = identity.identity_id;
  email = identity.email;
  groups = identity.groups;
  endpoint = some ("/mcp/" <> grant.server);
  request_id = identity.request_id;
  permission_decision = some grant.decision;
  denial_reason = grant.reason;
  cost_usd = none;
  token_saver_applied = none;
  tokens_saved = none;
  messages_dropped = none;
  saver_reasons = none;
  mcp_server = some grant.server;
  mcp_tool = some grant.tool;
  mcp_method = some grant.method;
  mcp_args_preview = grant.args_preview;
}

-- a failure to write the entry is logged
unfoldable pub record_mcp_audit :
    VerifiedRelayIdentity → McpGrant → (status latency_ms : ℕ) → Bool → Exec ℕ (Unit {0})
record_mcp_audit identity grant status latency_ms stream = do
  attempt {F = ℕ} (record_entry (mcp_entry identity grant status latency_ms stream))
  pure tt

-- an answer about a call, with the reason of a denial
abbrev pub Permission : Type 0
Permission = Bool × Option String

abbrev pub not_allowed : String → String → String
not_allowed server tool = "tool '" <> tool <> "' is not allowed on MCP server '" <> server <> "'"

abbrev pub no_tools : String → String
no_tools server = "MCP server '" <> server <> "' has no allowed tools for this group"

-- the arms of both functions below
abbrev pub permission : (reason : String) → Result Error Bool → Permission
permission reason (ok true) = (true, none)
permission reason (ok false) = (false, some reason)
permission reason (err e) = (false, some "policy resolution failed")

module _ (x : External) where
  unfoldable pub is_tool_allowed : List String → String → String → Exec ℕ Permission
  is_tool_allowed groups server tool = do
    allowed ← attempt (resolve_mcp_tool_allowed x groups server tool)
    pure (permission (not_allowed server tool) allowed)

  unfoldable pub is_method_allowed : List String → String → Exec ℕ Permission
  is_method_allowed groups server = do
    at_least_one ← attempt (resolve_mcp_has_any_tool x groups server)
    pure (permission (no_tools server) at_least_one)

  abbrev pub is_tool_call : ToolCall → Bool
  is_tool_call call = call.method == method_tools_call

  abbrev pub parse_reason : McpError → String
  parse_reason batch_unsupported = "batch JSON-RPC messages are not supported"
  parse_reason invalid_utf8 = "malformed JSON-RPC body"
  parse_reason (invalid_json_rpc e) = "malformed JSON-RPC body"
  parse_reason (malformed e) = "malformed JSON-RPC body"
  parse_reason (unknown_method e) = "malformed JSON-RPC body"

  -- `allow`
  unfoldable pub permission_of : List String → String → Extracted → Exec ℕ Permission
  unfolding is_tool_allowed is_method_allowed
  permission_of groups server (ok (some call)) =
      if is_tool_call call
      then is_tool_allowed groups server call.tool
      else is_method_allowed groups server
  permission_of groups server (ok none) = pure (true, none)
  permission_of groups server (err e) = pure (false, some (parse_reason e))

  -- the grant, apart from the decision
  unfoldable pub grant_for : String → Extracted → (decision : String) → Option String → McpGrant
  grant_for server (ok (some call)) decision reason = record {
    server = server;
    method = call.method;
    tool = if is_tool_call call then call.tool else "";
    decision = decision;
    reason = reason;
    args_preview = call.args_preview;
  }
  grant_for server _ decision reason = record {
    server = server;
    method = "unknown";
    tool = "";
    decision = decision;
    reason = reason;
    args_preview = none;
  }

  abbrev pub error_body : String → Json
  error_body message = object (
      field "jsonrpc" (string "2.0") (
        field "error"
          (object (field "code" (number "-32001") (field "message" (string message) end))) end))

  unfoldable pub audit_denial : Option VerifiedRelayIdentity → McpGrant → Exec ℕ (Unit {0})
  unfolding record_mcp_audit
  audit_denial none grant = pure tt
  audit_denial (some identity) grant = record_mcp_audit identity grant 403 0 false

  unfoldable pub conclude : Next → String → Request → Extracted → Permission → Layer
  unfolding audit_denial
  conclude next server request extracted (true, reason) =
      run next (record request { mcp_grant = some (grant_for server extracted "allowed" none) })
  conclude next server request extracted (false, reason) = do
    audit_denial request.identity (grant_for server extracted "denied" reason)
    pure (record {
      status = 403;
      retry_after = none;
      body = other (x.print_json (error_body (Opt.get_or reason "tool not allowed")));
    })

  abbrev pub request_groups : Option VerifiedRelayIdentity → List String
  request_groups none = []
  request_groups (some identity) = groups_of x identity.groups

  unfoldable pub check_call : Next → String → Request → Extracted → Layer
  unfolding permission_of conclude
  check_call next server request extracted = do
    allow ← permission_of (request_groups request.identity) server extracted
    conclude next server request extracted allow

  -- the arguments are the server of the path, and what reading the body gives
  unfoldable pub check_message : Next → Request → Option String → Option (List ℕ) → Layer
  unfolding check_call extract_tool_call
  check_message next request none body = run next request
  check_message next request (some server) none = raise 400
  check_message next request (some server) (some bytes) =
      check_call next server request (extract_tool_call x bytes server)

  unfoldable pub mcp_permissions_middleware : Next → Request → Layer
  unfolding check_message parse_server_path
  mcp_permissions_middleware next request =
      check_message next request (parse_server_path request.path) request.body
