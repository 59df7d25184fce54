-- ===== src/Proxy/McpHub/Call/Routed.antt =====
-- Which calls crates/central/src/proxy/mcp_hub.rs sends to a server.
use oidc_agent_compat.Prelude.{ℕ, String, ◌≡◌, true, Option, none, some, List}
use oidc_agent_compat.Error.{Error, Result, ok, err}
use oidc_agent_compat.External.{External}
use oidc_agent_compat.World.{World}
use oidc_agent_compat.Mcp.Hub.{split_tool_name}
use oidc_agent_compat.Mcp.Parse.{ToolCall, Extracted, extract_tool_call}
use oidc_agent_compat.Policy.Mcp.{resolve_mcp_tool_allowed}
use oidc_agent_compat.Servers.{ResolvedMcpServer, resolve_server}
use oidc_agent_compat.Proxy.Http.{VerifiedRelayIdentity, Response}
use oidc_agent_compat.Proxy.McpHub.{json_rpc_error}
use oidc_agent_compat.Proxy.McpHub.Call.Renamed.{Sends}
use oidc_agent_compat.Proxy.Upstream.{Upstream, Answered, to_response, call_upstream}
use oidc_agent_compat.Proxy.McpHub.Call.{audit_call, call_grant}

module _ (x : External) (identity : Option VerifiedRelayIdentity) (elapsed_ms : ℕ)
    (raw_body : List ℕ) where
  -- the same answer whatever the servers would say: none of them is asked
  abbrev pub Silent : (Upstream → Result ℕ Response × World) → Type 0
  Silent f = (one other : Upstream) → f one ≡ f other

  -- what the client is told, and the status that the audit log gets
  abbrev pub reply_of : Result Error Answered → Response
  reply_of (ok answered) = to_response answered
  reply_of (err e) = json_rpc_error x 502 "-32603" "upstream MCP request failed"

  abbrev pub status_of : Result Error Answered → ℕ
  status_of (ok answered) = answered.status
  status_of (err e) = 502

  -- One server is sent the body, its answer is the reply, and the call is entered as allowed.
  abbrev pub asks :
      ToolCall
      → (server tool : String) → ResolvedMcpServer
      → (body : List ℕ) → World
      → Upstream
      → Result ℕ Response × World
  asks call server tool resolved body v upstream =
      let (answer, u) = call_upstream x upstream resolved body v in
      (
        ok (reply_of answer),
        (audit_call identity (call_grant server tool "allowed" none call.args_preview)
            (status_of answer) elapsed_ms u).1,
      )

  -- the body with the tool's own name is sent to one server, and its answer relayed
  abbrev pub Relays :
      ToolCall
      → (server tool : String) → ResolvedMcpServer
      → World
      → (Upstream → Result ℕ Response × World)
      → Type 0
  Relays call server tool resolved v f =
      (body : List ℕ) × Sends x raw_body tool body
      × ((upstream : Upstream) → f upstream ≡ asks call server tool resolved body v upstream)

  abbrev pub Asks :
      ToolCall → (server tool : String) → World → (Upstream → Result ℕ Response × World) → Type 0
  Asks call server tool v f =
      (resolved : ResolvedMcpServer) × ((resolve_server x server v).0 ≡ ok (some resolved))
      × Relays call server tool resolved (resolve_server x server v).1 f

  -- The tool is allowed, and the server of that name is asked.
  abbrev pub Allowed :
      List String
      → World
      → ToolCall
      → (server tool : String) → (Upstream → Result ℕ Response × World)
      → Type 0
  Allowed groups w call server tool f =
      let (answer, v) = resolve_mcp_tool_allowed x groups server tool w in
      (answer ≡ ok true) × Asks call server tool v f

  -- the name is split into an allowed pair
  abbrev pub Named :
      List String
      → World
      → ToolCall
      → Option (String × String)
      → (Upstream → Result ℕ Response × World)
      → Type 0
  Named groups w call name f =
      (server : String) × (tool : String) × (name ≡ some (server, tool))
      × Allowed groups w call server tool f

  abbrev pub Routed :
      List String → World → Extracted → (Upstream → Result ℕ Response × World) → Type 0
  Routed groups w extracted f =
      (call : ToolCall) × (extracted ≡ ok (some call))
      × Named groups w call (split_tool_name call.tool) f

  -- the calls that are allowed and whose server is known and enabled
  abbrev pub Callable :
      List String → World → ToolCall → (server tool : String) → ResolvedMcpServer → Type 0
  Callable groups w call server tool resolved =
      let (answer, v) = resolve_mcp_tool_allowed x groups server tool w in
      (extract_tool_call x raw_body "hub" ≡ ok (some call))
      × (split_tool_name call.tool ≡ some (server, tool))
      × (answer ≡ ok true)
      × ((resolve_server x server v).0 ≡ ok (some resolved))
