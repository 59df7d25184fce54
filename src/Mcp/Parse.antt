-- ===== src/Mcp/Parse.antt =====
-- crates/mcp/src: the constants and types of protocol.rs, and the inspection of requests in parse.rs.
pub mod Calls
use Prim.Native.String.{[] as empty, ◌∷◌ as ◌+>◌, count}
use oidc_agent_compat.Prelude.{
  ℕ, zero, suc, String, ◌<>◌, ◌==◌, Bool, true, false, Option, none, some, List, [], ◌∷◌, any, leb,
  if◌then◌else◌,
}
use oidc_agent_compat.Error.{Result, ok, err}
use oidc_agent_compat.External.{
  External, Json, null, boolean, number, string, array, object, Items, nil, cons, Fields,
}
use oidc_agent_compat.Json.{get_field}
use oidc_agent_compat.Mcp.JsonRpc.{
  McpError, malformed, JsonRpcRequest, is_notification, optional, text_of, Parsed,
  parse_request_body,
}
use oidc_agent_compat.Mcp.Redact.{redact_sensitive_values}

abbrev pub protocol_version : String
protocol_version = "2025-06-18"

abbrev pub method_initialize : String
method_initialize = "initialize"

abbrev pub method_tools_list : String
method_tools_list = "tools/list"

abbrev pub method_tools_call : String
method_tools_call = "tools/call"

abbrev pub method_ping : String
method_ping = "ping"

abbrev pub client_methods : List String
client_methods =
    method_initialize ∷ method_tools_list ∷ method_tools_call ∷ "resources/list" ∷ "resources/read"
    ∷ "prompts/list" ∷ method_ping ∷ []

pub record ToolCallParams : Type 0 where
  pub name : String
  pub arguments : Option Json

pub record ToolCall : Type 0 where
  pub server : String
  pub method : String
  pub tool : String
  pub id : Option Json
  pub args_preview : Option String

-- `ARGS_PREVIEW_MAX_CHARS`
abbrev pub args_preview_max_chars : ℕ
args_preview_max_chars = 512

-- `chars().take(n).collect()`
unfoldable pub take_chars : ℕ → String → String
take_chars zero s = empty
take_chars (suc n) empty = empty
take_chars (suc n) (c +> s) = c +> take_chars n s

unfoldable pub cap_preview : String → String
unfolding take_chars
cap_preview json =
    if leb (count json) args_preview_max_chars
    then json
    else take_chars args_preview_max_chars json <> "…[truncated]"

unfoldable pub redact_args : External → Option Json → Option String
unfolding redact_sensitive_values cap_preview
redact_args x none = none
redact_args x (some value) = some (cap_preview (x.print_json (redact_sensitive_values value)))

unfoldable pub is_client_request : JsonRpcRequest → Bool
unfolding is_notification
is_client_request req =
    if is_notification req then false else any (λ m. m == req.method) client_methods

unfoldable pub with_name : Option String → Option Json → Option ToolCallParams
with_name none arguments = none
with_name (some name) arguments = some (record { name = name; arguments = arguments })

-- `serde_json::from_value::<ToolCallParams>`: the fields of an object, or the items of an array
unfoldable pub to_params : Json → Option ToolCallParams
unfolding with_name text_of optional get_field
to_params (object fields) =
    with_name (text_of (get_field "name" fields)) (optional (get_field "arguments" fields))
to_params (array (cons name nil)) = with_name (text_of (some name)) none
to_params (array (cons name (cons arguments nil))) =
    with_name (text_of (some name)) (optional (some arguments))
to_params _ = none

abbrev pub no_params : ToolCallParams
no_params = record { name = ""; arguments = none }

-- the parameters of a `tools/call`
unfoldable pub call_params : External → Option Json → Result McpError ToolCallParams
unfolding to_params
call_params x none = ok no_params
call_params x (some value) = elim (to_params value) [
  | none ↦ err (malformed ("invalid tools/call params: " <> x.shape_error value))
  | some params ↦ ok params
]

abbrev pub Extracted : Type 0
Extracted = Result McpError (Option ToolCall)

unfoldable pub named_call :
    External → String → JsonRpcRequest → Result McpError ToolCallParams → Extracted
unfolding redact_args
named_call x server req (err e) = err e
named_call x server req (ok params) =
    if params.name == ""
    then err (malformed "tools/call missing tool name")
    else ok (
        some (record {
          server = server;
          method = method_tools_call;
          tool = params.name;
          id = req.id;
          args_preview = redact_args x params.arguments;
        }))

unfoldable pub other_call : String → JsonRpcRequest → ToolCall
other_call server req = record {
  server = server;
  method = req.method;
  tool = "";
  id = req.id;
  args_preview = none;
}

unfoldable pub extract_request : External → String → Parsed → Extracted
unfolding is_client_request call_params named_call other_call
extract_request x server (err e) = err e
extract_request x server (ok none) = ok none
extract_request x server (ok (some req)) =
    if is_client_request req
    then if req.method == method_tools_call
      then named_call x server req (call_params x req.params)
      else ok (some (other_call server req))
    else ok none

unfoldable pub extract_tool_call : External → List ℕ → String → Extracted
unfolding extract_request parse_request_body
extract_tool_call x body server = extract_request x server (parse_request_body x body)
