-- ===== src/Proxy/McpHub/FanOut.antt =====
-- crates/central/src/proxy/mcp_hub.rs: `tools/list`, `initialize` and notifications.
pub mod Listed
use oidc_agent_compat.Prelude.{
  ℕ, String, ◌<>◌, ◌==◌, Bool, true, false, not, Option, none, some, List, [], ◌∷◌, ◌++◌, any,
  select, length, eqb, leb, ◌&&◌, if◌then◌else◌,
}
use oidc_agent_compat.Prelude.Decimal.{to_decimal}
use oidc_agent_compat.Error.{Error, Result, ok, err}
use oidc_agent_compat.External.{
  External, Json, null, string, array, object, Items, nil, cons, Fields, end, field,
}
use oidc_agent_compat.World.{World, Exec, pure, ◌>>=◌, ◌>>◌, attempt}
use oidc_agent_compat.Json.{get, as_str}
use oidc_agent_compat.Mcp.Hub.{join_tool_name}
use oidc_agent_compat.Mcp.Parse.{method_initialize, method_tools_list, protocol_version}
use oidc_agent_compat.Optimizer.{to_list, from_list, text_at}
use oidc_agent_compat.Policy.Merge.{contains, permits}
use oidc_agent_compat.Policy.Mcp.{entry_of, resolve_mcp_allowed_tools, resolve_mcp_allowed_servers}
use oidc_agent_compat.Servers.{
  McpServerInfo, ResolvedMcpServer, resolve_server, list_enabled_servers,
}
use oidc_agent_compat.HttpUtil.{max_body_size}
use oidc_agent_compat.Proxy.Http.{VerifiedRelayIdentity, Response, Layer}
use oidc_agent_compat.Proxy.Upstream.{Upstream, Answered, call_upstream}
use oidc_agent_compat.Proxy.McpHub.{record_hub_audit, json_rpc_error, json_response}
use oidc_agent_compat.Proxy.McpHub.Call.{insert_field}

-- the tool under its name in the hub, with the server as an annotation
unfoldable pub expose : String → String → Json → Json
unfolding insert_field join_tool_name
expose server name (object fs) = object (
    insert_field "x-oac-server" (string server)
      (insert_field "name" (string (join_tool_name server name)) fs))
expose server name other = other

-- the tool, if the policy allows it
unfoldable pub expose_named : Option (List String) → String → Json → Option String → List Json
unfolding expose
expose_named allowed server tool none = []
expose_named allowed server tool (some name) =
    if permits allowed (entry_of server name) then expose server name tool ∷ [] else []

unfoldable pub expose_all : Option (List String) → String → List Json → List Json
unfolding expose_named text_at
expose_all allowed server [] = []
expose_all allowed server (tool ∷ tools) =
    expose_named allowed server tool (text_at "name" tool) ++ expose_all allowed server tools

abbrev pub array_items : Option Json → List Json
array_items (some (array items)) = to_list items
array_items _ = []

abbrev pub and_get : String → Option Json → Option Json
and_get key none = none
and_get key (some v) = get key v

-- `pointer("/result/tools").and_then(as_array)`
unfoldable pub tools_of : Option Json → List Json
unfolding get to_list
tools_of value = array_items (and_get "tools" (and_get "result" value))

-- a body of at most `MAX_BODY_SIZE`, which `to_bytes` reads, with status 200
abbrev pub is_read : Answered → Bool
is_read answered = eqb answered.status 200 && leb (length answered.bytes) max_body_size

-- the reply of a server that answers with status 200
unfoldable pub exposed_tools :
    External → Option (List String) → String → Result Error Answered → List Json
unfolding expose_all tools_of
exposed_tools x allowed server (err e) = []
exposed_tools x allowed server (ok answered) =
    if is_read answered
    then expose_all allowed server (tools_of (x.parse_json answered.bytes))
    else []

-- `reachable.as_ref().is_none_or(|r| r.contains(&s.id))`
abbrev pub is_reachable : Option (List String) → McpServerInfo → Bool
is_reachable reachable s = permits reachable s.id

module _ (x : External) (upstream : Upstream) where
  unfoldable pub ask_server :
      List ℕ → Result Error (Option ResolvedMcpServer) → Exec ℕ (Option (Result Error Answered))
  unfolding call_upstream
  ask_server raw_body (ok (some resolved)) = do
    answer ← attempt (call_upstream x upstream resolved raw_body)
    pure (some answer)
  ask_server raw_body (ok none) = pure none
  ask_server raw_body (err e) = pure none

  abbrev pub exposed_answer :
      Option (List String) → String → Option (Result Error Answered) → List Json
  exposed_answer allowed server none = []
  exposed_answer allowed server (some answer) = exposed_tools x allowed server answer

  -- the loop over the servers
  unfoldable pub collect_tools :
      Option (List String) → List ℕ → List McpServerInfo → Exec ℕ (List Json)
  unfolding ask_server exposed_tools
  collect_tools allowed raw_body [] = pure []
  collect_tools allowed raw_body (server ∷ servers) = do
    resolved ← attempt (resolve_server x server.id)
    answer ← ask_server raw_body resolved
    rest ← collect_tools allowed raw_body servers
    pure (exposed_answer allowed server.id answer ++ rest)

  module _ (identity : Option VerifiedRelayIdentity) (elapsed_ms : ℕ) (raw_body : List ℕ) where
    unfoldable pub list_tools :
        Option (List String) → Option (List String) → Result Error (List McpServerInfo) → Layer
    unfolding collect_tools record_hub_audit json_rpc_error json_response from_list
    list_tools reachable allowed (err e) =
        pure (json_rpc_error x 502 "-32603" "server listing failed")
    list_tools reachable allowed (ok servers) = do
      tools ← collect_tools allowed raw_body (select (is_reachable reachable) servers)
      record_hub_audit identity method_tools_list "" 200 elapsed_ms
          (some (to_decimal (length tools) <> " tools"))
      pure (json_response x none (object (field "tools" (array (from_list tools)) end)))

    unfoldable pub list_allowed : Option (List String) → Result Error (Option (List String)) → Layer
    unfolding list_tools json_rpc_error
    list_allowed reachable (err e) = pure (json_rpc_error x 403 "-32001" "policy resolution failed")
    list_allowed reachable (ok allowed) = do
      servers ← attempt list_enabled_servers
      list_tools reachable allowed servers

    unfoldable pub handle_tools_list : List String → Option (List String) → Layer
    unfolding list_allowed
    handle_tools_list groups reachable = do
      allowed ← attempt (resolve_mcp_allowed_tools x groups)
      list_allowed reachable allowed

  abbrev pub hub_info : Json
  hub_info = object (field "name" (string "oac-hub") (field "version" (string "1.0") end))

  abbrev pub initialize_body : Json
  initialize_body = object (
      field "jsonrpc" (string "2.0") (
        field "id" null (
          field "method" (string method_initialize) (
            field "params"
              (object (
                field "protocolVersion" (string protocol_version)
                  (field "capabilities" (object end) (field "clientInfo" hub_info end))))
              end))))

  abbrev pub default_result : Json
  default_result = object (
      field "protocolVersion" (string protocol_version)
        (field "capabilities" (object end) (field "serverInfo" hub_info end)))

  abbrev pub result_of : Json → Json
  result_of value = elim (get "result" value) [
    | none ↦ object (field "protocolVersion" (string protocol_version) end)
    | some result ↦ result
  ]

  -- the result of a server that answers with status 200 and JSON
  unfoldable pub initialized : Option (Result Error Answered) → Option Json
  initialized none = none
  initialized (some (err e)) = none
  initialized (some (ok answered)) =
      if is_read answered
      then elim (x.parse_json answered.bytes) [ none ↦ none | some value ↦ some (result_of value) ]
      else none

  -- the loop, which ends with the first result
  unfoldable pub first_result : List McpServerInfo → Exec ℕ (Option Json)
  unfolding ask_server initialized
  first_result [] = pure none
  first_result (server ∷ servers) = do
    resolved ← attempt (resolve_server x server.id)
    answer ← ask_server (x.encode_json initialize_body) resolved
    elim (initialized answer) [ none ↦ first_result servers | some result ↦ pure (some result) ]

  abbrev pub or_none : Result Error (List McpServerInfo) → List McpServerInfo
  or_none (ok servers) = servers
  or_none (err e) = []

  abbrev pub or_default : Option Json → Json
  or_default none = default_result
  or_default (some result) = result

  unfoldable pub handle_initialize : Option (List String) → Option Json → Layer
  unfolding first_result json_response
  handle_initialize reachable id = do
    servers ← attempt list_enabled_servers
    result ← first_result (select (is_reachable reachable) (or_none servers))
    pure (json_response x id (or_default result))

  -- the loop of `broadcast_notification`; what the servers answer is dropped
  unfoldable pub notify_all : List ℕ → List McpServerInfo → Exec ℕ (Unit {0})
  unfolding ask_server
  notify_all raw_body [] = pure tt
  notify_all raw_body (server ∷ servers) = do
    resolved ← attempt (resolve_server x server.id)
    ask_server raw_body resolved
    notify_all raw_body servers

  unfoldable pub notify_reachable : List ℕ → Result Error (Option (List String)) → Exec ℕ (Unit {0})
  unfolding notify_all
  notify_reachable raw_body (err e) = pure tt
  notify_reachable raw_body (ok reachable) = do
    servers ← attempt list_enabled_servers
    notify_all raw_body (select (is_reachable reachable) (or_none servers))

  unfoldable pub broadcast_notification : List String → List ℕ → Exec ℕ (Unit {0})
  unfolding notify_reachable
  broadcast_notification groups raw_body = do
    reachable ← attempt (resolve_mcp_allowed_servers x groups)
    notify_reachable raw_body reachable
