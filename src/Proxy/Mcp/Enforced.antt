-- ===== src/Proxy/Mcp/Enforced.antt =====
-- What the middleware of crates/central/src/proxy/mcp_permissions.rs hands on to the MCP servers.
use oidc_agent_compat.Prelude.{
  ℕ, String, ◌≡◌, ◌≢◌, ◌⊎◌, Bool, true, false, none, some, List, if◌then◌else◌,
}
use oidc_agent_compat.Error.{Error, Result, ok, err}
use oidc_agent_compat.External.{External, Json, object}
use oidc_agent_compat.Json.{get_field}
use oidc_agent_compat.Prelude.Utf8.{from_utf8}
use oidc_agent_compat.World.{World, Exec}
use oidc_agent_compat.Policy.Mcp.{resolve_mcp_tool_allowed, resolve_mcp_has_any_tool}
use oidc_agent_compat.Mcp.Parse.{ToolCall, Extracted}
use oidc_agent_compat.Proxy.Http.{Request, Response, Next, run}
use oidc_agent_compat.Proxy.Mcp.{is_tool_call, grant_for, request_groups}

-- an object without a method
abbrev pub lacks_method : Result String Json → Bool
lacks_method (ok (object fields)) = elim (get_field "method" fields) [
  | none ↦ true
  | some m ↦ false
]
lacks_method _ = false

-- the body is an object of JSON without a method, as a JSON-RPC response is
abbrev pub is_answer : External → List ℕ → Bool
is_answer x bytes = elim (from_utf8 bytes) [
  | none ↦ false
  | some text ↦ lacks_method (x.parse_text text)
]

abbrev pub Denied : Result ℕ Response × World → Type 0
Denied r = (response : Response) × (r.0 ≡ ok response) × (response.status ≡ 403)

module _ (x : External) where
  -- what the policy store says of a call: of its tool, or, for another method, of the server
  abbrev pub permitted : List String → String → ToolCall → Exec Error Bool
  permitted groups server call =
      if is_tool_call x call
      then resolve_mcp_tool_allowed x groups server call.tool
      else resolve_mcp_has_any_tool x groups server

  module _ (next : Next) (server : String) (request : Request) where
    abbrev pub with_grant : Extracted → Request
    with_grant extracted = record request {
      mcp_grant = some (grant_for x server extracted "allowed" none);
    }

    -- how the middleware ends, by what is extracted from the body
    abbrev pub Enforced : Extracted → World → Result ℕ Response × World → Type 0
    Enforced (err e) w r = Denied r
    Enforced (ok none) w r = r ≡ run next (with_grant (ok none)) w
    Enforced (ok (some call)) w r =
        let (answer, v) = permitted (request_groups x request.identity) server call w in
        ((answer ≡ ok true) × (r ≡ run next (with_grant (ok (some call))) v))
        ⊎ ((answer ≢ ok true) × Denied r)
