-- ===== src/Tests/Servers.antt =====
-- The laws of the MCP endpoints at concrete requests, and of the checks of paths.
use oidc_agent_compat.Prelude.{
  ℕ, String, ◌≡◌, refl, ◌⊎◌, true, false, Option, none, some, List, [], ◌∷◌, All,
}
use oidc_agent_compat.Prelude.Text.{contains_text, has_char}
use oidc_agent_compat.Prelude.Utf8.{from_utf8}
use oidc_agent_compat.Error.{ok, err, http}
use oidc_agent_compat.External.{
  External, Json, null, number, string, object, array, nil, cons, field, end,
}
use oidc_agent_compat.World.{pure}
use oidc_agent_compat.Mcp.Hub.{split_tool_name}
use oidc_agent_compat.Mcp.Hub.RoundTrip.{ends_open}
use oidc_agent_compat.Mcp.Parse.{ToolCall, extract_tool_call}
use oidc_agent_compat.Mcp.Parse.Calls.{IsCall, extract_tool_call_sound}
use oidc_agent_compat.Servers.{info}
use oidc_agent_compat.HttpUtil.{sanitize_path}
use oidc_agent_compat.HttpUtil.Paths.{is_safe, sanitize_path_lem}
use oidc_agent_compat.Proxy.Http.{Request}
use oidc_agent_compat.Proxy.Mcp.Enforced.{Enforced}
use oidc_agent_compat.Proxy.Upstream.{Upstream}
use oidc_agent_compat.Proxy.McpHub.Call.Routed.{Routed}
use oidc_agent_compat.Proxy.McpHub.FanOut.{collect_tools}
use oidc_agent_compat.Proxy.McpHub.FanOut.Listed.{IsListed, collect_tools_lem}
use oidc_agent_compat.Tests.Data.{env, central, ann, chat, files_server}

-- a `tools/call` of a tool with an id or without one
abbrev call_json : String → Option Json → Json
call_json name none = object (
    field "jsonrpc" (string "2.0") (
      field "method" (string "tools/call")
        (field "params" (object (field "name" (string name) end)) end)))
call_json name (some id) = object (
    field "jsonrpc" (string "2.0") (
      field "method" (string "tools/call")
        (field "params" (object (field "name" (string name) end)) (field "id" id end))))

abbrev call_env : String → Option Json → External
call_env name id = record env {
  parse_text = λ text. ok (call_json name id);
  parse_json = λ bytes. some (call_json name id);
}

abbrev bytes : List ℕ
bytes = 123 ∷ 125 ∷ []

abbrev read_call : ToolCall
read_call = record {
  server = "files";
  method = "tools/call";
  tool = "read";
  id = some (number "1");
  args_preview = none;
}

extract_example : IsCall "files" read_call
unfolding extract_tool_call from_utf8
extract_example =
    extract_tool_call_sound (call_env "read" (some (number "1"))) bytes "files" read_call refl

-- A `tools/call` without an id, or with the id null, is taken for a notification, so that the
-- middleware hands it on without asking for the tool.
call_without_id : extract_tool_call (call_env "delete" (some null)) bytes "files" ≡ ok none
unfolding extract_tool_call from_utf8
call_without_id = refl

abbrev call_request : Request
call_request = record (chat (some ann)) { path = "/mcp/files"; body = some bytes }

abbrev hub_env : External
hub_env = call_env "files__read" (some (number "1"))

-- the answer to `tools/list` of every server
abbrev tools_json : Json
tools_json = object (
    field "result"
      (object (
        field "tools"
          (array (
            cons (object (field "name" (string "read") end))
              (cons (object (field "name" (string "delete") end)) nil)))
          end))
      end)

abbrev list_env : External
list_env = record env { parse_json = λ answer. some tools_json }

abbrev upstream_ok : Upstream
upstream_ok sent =
    pure (record { status = 200; content_type = some "application/json"; body = some bytes })

collect_example :
    (tools : List Json) × ((collect_tools list_env upstream_ok
        (some ("files:read" ∷ []))
        bytes
        (info files_server ∷ [])
        central).0
      ≡ ok tools)
    × All
        (IsListed list_env upstream_ok (some ("files:read" ∷ [])) bytes (info files_server ∷ []))
        tools
unfolding split_tool_name ends_open
collect_example =
    collect_tools_lem list_env upstream_ok (some ("files:read" ∷ [])) bytes (info files_server ∷ [])
      central ((refl, refl), tt)

sanitize_example :
    ((sanitize_path "/v1/%2E./x" ≡ ok "/v1/%2E./x") × (is_safe "/v1/%2E./x" ≡ true))
    ⊎ ((message : String) × (sanitize_path "/v1/%2E./x" ≡ err (http message))
        × (is_safe "/v1/%2E./x" ≡ false))
sanitize_example = sanitize_path_lem "/v1/%2E./x"

-- An encoded backslash is let through.
backslash_let_through : sanitize_path "/v1/%5c" ≡ ok "/v1/%5c"
unfolding sanitize_path contains_text has_char
backslash_let_through = refl
