-- ===== src/Proxy/Http.antt =====
-- The requests and responses that the middleware of crates/central/src/proxy handles: the parts
-- that it reads, and the extensions that one layer leaves for the next.
use oidc_agent_compat.Prelude.{ℕ, String, ◌==◌, Bool, Option, none, some, List, find}
use oidc_agent_compat.Policy.Merge.{TokenSaverConfig}
use oidc_agent_compat.World.{World, Exec}
use oidc_agent_compat.Error.{ok}

pub record VerifiedRelayIdentity : Type 0 where
  pub subject : String
  pub email : Option String
  pub identity_id : Option String
  pub groups : Option String
  pub request_id : Option String
  pub token_id : Option String
  pub created_at : Option ℕ

pub record PermissionDecision : Type 0 where
  pub decision : String
  pub reason : Option String
  pub request_reserved : Bool

pub record TokenSaverGrant : Type 0 where
  pub config : TokenSaverConfig

-- What the MCP permissions layer leaves for the audit log, and its answer.
pub record McpGrant : Type 0 where
  pub server : String
  pub method : String
  pub tool : String
  pub decision : String
  pub reason : Option String
  pub args_preview : Option String

-- The value of a header, or `none` where `to_str` fails.
pub record Header : Type 0 where
  pub name : String
  pub text : Option String

-- `body` is `none` where reading it fails, as it does beyond `MAX_BODY_SIZE`.
pub record Request : Type 0 where
  pub method : String
  pub path : String
  pub headers : List Header
  pub body : Option (List ℕ)
  pub identity : Option VerifiedRelayIdentity
  pub decision : Option PermissionDecision
  pub grant : Option TokenSaverGrant
  pub mcp_grant : Option McpGrant

-- `headers().get(name).and_then(|h| h.to_str().ok())`
abbrev pub header_text : String → Request → Option String
header_text name request = elim (find (λ (h : Header). h.name == name) request.headers) [
  | none ↦ none
  | some h ↦ h.text
]

-- `permission_denied` is the JSON error of the permissions layer; `other` is any other body that the proxy writes.
pub data Body : Type 0 where
  permission_denied : (message : String) → Body
  other : String → Body
  -- the bytes of an MCP server
  forwarded : List ℕ → Body

pub record Response : Type 0 where
  pub status : ℕ
  pub retry_after : Option ℕ
  pub body : Body

-- the rest of the service, which answers every request
abbrev pub Next : Type 0
Next = Request → World → Response × World

-- An `Err(StatusCode)` of a layer is a response without a body.
abbrev pub Layer : Type 0
Layer = Exec ℕ Response

-- `Ok(next.run(request).await)`
unfoldable pub run : Next → Request → Layer
run next request w = let (response, v) = next request w in (ok response, v)
