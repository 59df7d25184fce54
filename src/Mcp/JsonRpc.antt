-- ===== src/Mcp/JsonRpc.antt =====
-- crates/mcp/src: the errors of errors.rs, and the requests of jsonrpc.rs.
use oidc_agent_compat.Prelude.{
  ℕ, String, ◌<>◌, ◌==◌, Bool, true, false, not, Option, none, some, List, if◌then◌else◌,
}
use oidc_agent_compat.Prelude.Utf8.{from_utf8}
use oidc_agent_compat.Error.{Result, ok, err}
use oidc_agent_compat.External.{
  External, Json, null, boolean, number, string, array, object, Fields,
}
use oidc_agent_compat.Json.{get_field}

pub data McpError : Type 0 where
  invalid_utf8 : McpError
  invalid_json_rpc : String → McpError
  malformed : String → McpError
  batch_unsupported : McpError
  unknown_method : String → McpError

pub record JsonRpcRequest : Type 0 where
  pub jsonrpc : String
  pub method : String
  pub id : Option Json
  pub params : Option Json

abbrev pub is_some {ℓ} : {A : Type ℓ} → Option A → Bool
is_some none = false
is_some (some _) = true

-- `JsonRpcRequest::is_notification`
unfoldable pub is_notification : JsonRpcRequest → Bool
is_notification req = not (is_some req.id)

-- an `Option<Value>` of a struct: a field that is missing or `null` is `None`
unfoldable pub optional : Option Json → Option Json
optional (some null) = none
optional other = other

unfoldable pub text_of : Option Json → Option String
text_of (some (string s)) = some s
text_of _ = none

-- the fields `jsonrpc` and `method`, which are required
unfoldable pub with_texts :
    Option String → Option String → Option Json → Option Json → Option JsonRpcRequest
with_texts (some jsonrpc) (some method) id params =
    some (record { jsonrpc = jsonrpc; method = method; id = id; params = params })
with_texts _ _ id params = none

-- `serde_json::from_value::<JsonRpcRequest>` of an object
unfoldable pub to_request : Fields → Option JsonRpcRequest
unfolding with_texts text_of optional get_field
to_request fields =
    with_texts (text_of (get_field "jsonrpc" fields)) (text_of (get_field "method" fields))
      (optional (get_field "id" fields)) (optional (get_field "params" fields))

abbrev pub Parsed : Type 0
Parsed = Result McpError (Option JsonRpcRequest)

-- the guard on the version
unfoldable pub check_version : External → Json → Option JsonRpcRequest → Parsed
check_version x value none =
    err (malformed ("missing jsonrpc/method fields: " <> x.shape_error value))
check_version x value (some req) =
    if req.jsonrpc == "2.0" then ok (some req) else err (malformed "jsonrpc version must be 2.0")

unfoldable pub classify : External → Json → Parsed
unfolding check_version to_request
classify x (array items) = err batch_unsupported
classify x (object fields) = check_version x (object fields) (to_request fields)
classify x null = ok none
classify x (boolean b) = ok none
classify x (number n) = ok none
classify x (string s) = ok none

unfoldable pub parse_json_rpc : External → Result String Json → Parsed
unfolding classify
parse_json_rpc x (err e) = err (invalid_json_rpc e)
parse_json_rpc x (ok value) = classify x value

unfoldable pub parse_request_body : External → List ℕ → Parsed
unfolding parse_json_rpc from_utf8
parse_request_body x body = elim (from_utf8 body) [
  | none ↦ err invalid_utf8
  | some text ↦ parse_json_rpc x (x.parse_text text)
]
