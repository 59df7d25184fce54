-- ===== src/Proxy/Forward/Retry.antt =====
-- crates/central/src/proxy/forward.rs: the exchange with a provider, which is repeated with further
-- keys while the provider refuses them.
pub mod Ends
use oidc_agent_compat.Prelude.{
  ℕ, zero, suc, String, ◌<>◌, Bool, ◌||◌, Option, none, some, List, ◌∷◌, eqb, if◌then◌else◌,
}
use oidc_agent_compat.Prelude.Text.{trim_end_char}
use oidc_agent_compat.Error.{Error, http}
use oidc_agent_compat.Entity.{Provider}
use oidc_agent_compat.External.{External}
use oidc_agent_compat.World.{Exec, pure, ◌>>=◌, map_err}
use oidc_agent_compat.Providers.Keys.{ResolvedProviderKey, resolve_key}
use oidc_agent_compat.Proxy.Http.{Header}
use oidc_agent_compat.Proxy.Upstream.{UpstreamRequest}
use oidc_agent_compat.Proxy.Forward.Stream.{Event}

pub record ProviderReply : Type 0 where
  pub status : ℕ
  pub headers : List Header
  pub events : List Event

-- The error is the message of the HTTP client.
abbrev pub ProviderClient : Type 0
ProviderClient = UpstreamRequest → Exec String ProviderReply

-- what the loop takes from the request
pub record Outgoing : Type 0 where
  pub method : String
  pub path : String
  pub headers : List Header
  pub body : List ℕ

abbrev pub request_error : String → Error
request_error e = http ("upstream request: " <> e)

-- 401 or 429
abbrev pub is_refused : ℕ → Bool
is_refused status = eqb status 401 || eqb status 429

unfoldable pub keyed_request : Provider → Outgoing → ResolvedProviderKey → UpstreamRequest
unfolding trim_end_char
keyed_request provider out key = record {
  method = out.method;
  url = trim_end_char b'/' provider.base_url <> out.path;
  headers = record { name = "authorization"; text = some key.secret } ∷ out.headers;
  body = out.body;
}

module _ (x : External) (client : ProviderClient) (groups : List String) (provider : Provider)
    (out : Outgoing) where
  -- The first argument is the next round.
  unfoldable pub with_next :
      (ResolvedProviderKey → Exec Error (Option ProviderReply))
      → ProviderReply
      → Option ResolvedProviderKey
      → Exec Error (Option ProviderReply)
  with_next again reply none = pure (some reply)
  with_next again reply (some key) = again key

  unfoldable pub after_reply :
      (ResolvedProviderKey → Exec Error (Option ProviderReply))
      → List String
      → ProviderReply
      → Exec Error (Option ProviderReply)
  unfolding with_next
  after_reply again excluded reply =
      if is_refused reply.status
      then (do next ← resolve_key x groups excluded provider.id; with_next again reply next)
      else pure (some reply)

  -- The loop, with the keys that were tried; `none` is that the rounds ran out.
  unfoldable pub send_loop :
      ℕ → List String → ResolvedProviderKey → Exec Error (Option ProviderReply)
  unfolding after_reply keyed_request
  send_loop zero excluded key = pure none
  send_loop (suc rounds) excluded key = do
    reply ← map_err request_error (client (keyed_request provider out key))
    after_reply (send_loop rounds (key.id ∷ excluded)) (key.id ∷ excluded) reply
