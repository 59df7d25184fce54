-- ===== src/Proxy/Upstream.antt =====
-- The calls of MCP servers in crates/central/src/proxy: `call_upstream` of mcp_hub.rs. The exchange
-- itself is a parameter.
use oidc_agent_compat.Prelude.{
  ℕ, String, ◌<>◌, ◌==◌, Bool, false, Option, none, some, List, [], ◌∷◌, if◌then◌else◌,
}
use oidc_agent_compat.Prelude.Text.{split_once, trim, trim_end_char}
use oidc_agent_compat.Error.{Error, http}
use oidc_agent_compat.External.{External}
use oidc_agent_compat.World.{Exec, pure, raise, ◌>>=◌, map_err}
use oidc_agent_compat.HttpUtil.{is_sse_content_type}
use oidc_agent_compat.Servers.{ResolvedMcpServer}
use oidc_agent_compat.Proxy.Http.{Header, Response, forwarded}

pub record UpstreamRequest : Type 0 where
  pub method : String
  pub url : String
  pub headers : List Header
  pub body : List ℕ

-- `body` is `none` where reading it fails, `content_type` where it is missing or not a text.
pub record Reply : Type 0 where
  pub status : ℕ
  pub content_type : Option String
  pub body : Option (List ℕ)

-- The error is the message of the HTTP client.
abbrev pub Upstream : Type 0
Upstream = UpstreamRequest → Exec String Reply

abbrev pub no_header : List Header
no_header = []

-- a pair if both parts are valid
abbrev pub valid_pair : Option String → Option String → List Header
valid_pair (some name) (some value) = record { name = name; text = some value } ∷ []
valid_pair _ _ = []

unfoldable pub named_pair : External → String → String → List Header
named_pair x name value =
    if name == "" then no_header else valid_pair (x.header_name name) (x.header_value value)

unfoldable pub auth_pair : External → Option (String × String) → List Header
unfolding named_pair trim
auth_pair x none = no_header
auth_pair x (some (name, value)) = named_pair x (trim name) (trim value)

-- the header of the server's `Header: value` line, if it is one
unfoldable pub auth_headers : External → Option String → List Header
unfolding auth_pair split_once
auth_headers x none = no_header
auth_headers x (some line) = auth_pair x (split_once b':' line)

-- what is left of the reply: the response with its status, and whether it streams
pub record Answered : Type 0 where
  pub status : ℕ
  pub stream : Bool
  pub bytes : List ℕ

unfoldable pub read_reply : Reply → Option (List ℕ) → Exec Error Answered
read_reply reply none = raise (http "read MCP upstream body")
read_reply reply (some bytes) = pure (record {
  status = reply.status;
  stream = elim reply.content_type [ none ↦ false | some t ↦ is_sse_content_type t ];
  bytes = bytes;
})

abbrev pub send_error : String → Error
send_error e = http ("MCP upstream send: " <> e)

-- the response that is made of an answer
abbrev pub to_response : Answered → Response
to_response a = record { status = a.status; retry_after = none; body = forwarded a.bytes }

unfoldable pub call_upstream :
    External → Upstream → ResolvedMcpServer → List ℕ → Exec Error Answered
unfolding trim_end_char auth_headers read_reply
call_upstream x upstream resolved body = do
  reply ← map_err send_error (
      upstream (record {
        method = "POST";
        url = trim_end_char b'/' resolved.base_url;
        headers =
            record { name = "content-type"; text = some "application/json" }
            ∷ auth_headers x resolved.auth_header;
        body = body;
      }))
  read_reply reply reply.body
