-- ===== src/Proxy/Forward/Handler.antt =====
-- crates/central/src/proxy/forward.rs: the handler behind the permissions middleware.
pub mod Settled
use mathlib.Core.Option as Opt
use oidc_agent_compat.Prelude.{
  ℕ, String, ◌<>◌, Bool, true, false, not, Option, none, some, List, [], ◌∷◌, ◌++◌, discard, length,
  if◌then◌else◌,
}
use oidc_agent_compat.Error.{Error, config, auth, http, Result, ok, err}
use oidc_agent_compat.Entity.{Provider}
use oidc_agent_compat.External.{External}
use oidc_agent_compat.Json.{extract_model}
use oidc_agent_compat.World.{World, Exec, pure, raise, lift, ◌>>=◌, ◌>>◌, attempt}
use oidc_agent_compat.HttpUtil.{
  lowercase, sanitize_path, build_forward_headers, is_response_header_stripped, is_sse_content_type,
  header_named,
}
use oidc_agent_compat.Optimizer.{OptimizationReport}
use oidc_agent_compat.Optimizer.Prompt.{optimize_prompt}
use oidc_agent_compat.Float.{Float}
use oidc_agent_compat.Pricing.{PriceTable}
use oidc_agent_compat.Providers.{resolve_provider_for_model}
use oidc_agent_compat.Providers.Keys.{ResolvedProviderKey, resolve_key}
use oidc_agent_compat.Usage.{release_request}
use oidc_agent_compat.Proxy.Http.{
  VerifiedRelayIdentity, PermissionDecision, TokenSaverGrant, Header, Request,
}
use oidc_agent_compat.Proxy.Forward.{
  TokenUsage, no_usage, extract_token_usage, inject_stream_usage_option,
}
use oidc_agent_compat.Proxy.Forward.Stream.{Event, chunk, broken, Tap, new_tap, poll}
use oidc_agent_compat.Proxy.Forward.Retry.{ProviderReply, ProviderClient, Outgoing, send_loop}
use oidc_agent_compat.Proxy.Forward.Accounting.{AccountingContext, record_request_outcome}

-- A streamed body is what the provider will send.
pub data ResponseBody : Type 0 where
  buffered : List ℕ → ResponseBody
  streamed : List Event → ResponseBody
  proxy_error : String → ResponseBody

pub record ForwardResponse : Type 0 where
  pub status : ℕ
  pub headers : List Header
  pub body : ResponseBody

-- The accounting is deferred exactly for a stream.
pub record ForwardOutcome : Type 0 where
  pub resp : ForwardResponse
  pub model : Option String
  pub provider_name : String
  pub status : ℕ
  pub stream : Bool
  pub usage : TokenUsage
  pub saver_report : Option OptimizationReport

-- `serde_json::from_str(groups).ok().unwrap_or_default()`
unfoldable pub forwarded_groups : External → Option VerifiedRelayIdentity → List String
forwarded_groups x none = []
forwarded_groups x (some identity) = elim identity.groups [
  | none ↦ []
  | some json ↦ Opt.get_or (x.parse_strings json) []
]

unfoldable pub save_tokens :
    External → List ℕ → Option TokenSaverGrant → List ℕ × Option OptimizationReport
unfolding optimize_prompt
save_tokens x body none = (body, none)
save_tokens x body (some grant) =
    let (optimized, report) = optimize_prompt x body grant.config in
    if report.applied then (optimized, some report) else (body, none)

unfoldable pub required_provider : Option Provider → Exec Error Provider
required_provider none = raise (config "no enabled provider matches the requested model")
required_provider (some provider) = pure provider

unfoldable pub required_key : Provider → Option ResolvedProviderKey → Exec Error ResolvedProviderKey
required_key provider none =
    raise (auth ("no authorized enabled key for provider '" <> provider.id <> "'"))
required_key provider (some key) = pure key

-- `bytes()`
unfoldable pub collect : List Event → Option (List ℕ)
collect [] = some []
collect (chunk bytes ∷ events) = Opt.map (λ (rest : List ℕ). bytes ++ rest) (collect events)
collect (broken e ∷ events) = none

unfoldable pub response_headers : List Header → List Header
unfolding is_response_header_stripped lowercase
response_headers headers =
    discard (λ (h : Header). is_response_header_stripped (lowercase h.name)) headers

-- the text of the header, or none
abbrev pub header_or_empty : Option Header → String
header_or_empty none = ""
header_or_empty (some h) = Opt.get_or h.text ""

-- The loop over the keys gives `none` only if its rounds run out.
unfoldable pub answered : Option ProviderReply → Exec Error ProviderReply
answered none = raise (http "upstream request: no round left")
answered (some reply) = pure reply

unfoldable pub outcome_of :
    Option String → String → Option OptimizationReport → Bool → ProviderReply → ForwardOutcome
unfolding response_headers
outcome_of model provider_name report stream reply = record {
  resp = record {
    status = reply.status;
    headers = response_headers reply.headers;
    body = streamed reply.events;
  };
  model = model;
  provider_name = provider_name;
  status = reply.status;
  stream = stream;
  usage = no_usage;
  saver_report = report;
}

abbrev pub bad_gateway : ForwardResponse
bad_gateway = record {
  status = 502;
  headers = record { name = "content-type"; text = some "application/json" } ∷ [];
  body = proxy_error "upstream request failed";
}

-- A reservation that was made for a request that failed is released; errors are logged.
unfoldable pub release_reserved :
    Option VerifiedRelayIdentity → Option PermissionDecision → Exec Error (Unit {0})
release_reserved (some identity) (some decision) =
    if decision.request_reserved
    then (do attempt {F = Error} (release_request identity.subject); pure tt)
    else pure tt
release_reserved _ _ = pure tt

-- The response, and the accounting that is left for the end of a stream.
abbrev pub Handled : Type 0
Handled = ForwardResponse × Option AccountingContext

module _ (x : External) (f : Float) (prices : PriceTable) (client : ProviderClient)
    (elapsed_ms : ℕ) where
  unfoldable pub buffer_reply : ForwardOutcome → Option (List ℕ) → Exec Error ForwardOutcome
  unfolding extract_token_usage
  buffer_reply outcome none = raise (http "read upstream body")
  buffer_reply outcome (some bytes) = pure (record outcome {
    resp = record outcome.resp { body = buffered bytes };
    usage = extract_token_usage x bytes;
  })

  unfoldable pub read_outcome :
      Option String → String → Option OptimizationReport → ProviderReply → Exec Error ForwardOutcome
  unfolding outcome_of buffer_reply collect is_sse_content_type
  read_outcome model provider_name report reply =
      if is_sse_content_type (header_or_empty (header_named "content-type" reply.headers))
      then pure (outcome_of model provider_name report true reply)
      else buffer_reply (outcome_of model provider_name report false reply) (collect reply.events)

  -- `resolve_key` and the loop, which has as many rounds as there are keys
  unfoldable pub send_with_keys :
      List String → Provider → Outgoing → Exec Error (Option ProviderReply)
  unfolding required_key send_loop
  send_with_keys groups provider out = do
    first ← resolve_key x groups [] provider.id
    key ← required_key provider first
    λ w. send_loop x client groups provider out (length w.provider_keys) [] key w

  unfoldable pub forward_body : Request → Option (List ℕ) → Exec Error ForwardOutcome
  unfolding extract_model save_tokens inject_stream_usage_option sanitize_path build_forward_headers
      forwarded_groups required_provider send_with_keys answered read_outcome
  forward_body request none = raise (http "read body")
  forward_body request (some bytes) = do
    let model = extract_model x bytes
    let saved = save_tokens x bytes request.grant
    let body = inject_stream_usage_option x saved.0
    sanitized ← lift (sanitize_path request.path)
    found ← resolve_provider_for_model x model
    provider ← required_provider found
    last ← send_with_keys (forwarded_groups x request.identity) provider (record {
      method = request.method;
      path = sanitized;
      headers = build_forward_headers request.headers;
      body = body;
    })
    reply ← answered last
    read_outcome model provider.name saved.1 reply

  unfoldable pub forward_request : Request → Exec Error ForwardOutcome
  unfolding forward_body
  forward_request request = forward_body request request.body

  unfoldable pub context_of : Request → ForwardOutcome → AccountingContext
  context_of request outcome = record {
    identity = request.identity;
    decision = request.decision;
    path = request.path;
    model = outcome.model;
    provider_name = outcome.provider_name;
    status = outcome.status;
    elapsed_ms = elapsed_ms;
    saver_report = outcome.saver_report;
  }

  unfoldable pub account : Request → Result Error ForwardOutcome → Exec Error Handled
  unfolding context_of release_reserved
  account request (ok outcome) =
      if outcome.stream then pure (outcome.resp, some (context_of request outcome)) else (do
        record_request_outcome x f prices (context_of request outcome) outcome.usage false
        pure (outcome.resp, none))
  account request (err e) = do
    release_reserved request.identity request.decision
    pure (bad_gateway, none)

  unfoldable pub proxy_handler : Request → Exec Error Handled
  unfolding forward_request account
  proxy_handler request = do outcome ← attempt (forward_request request); account request outcome

  -- The spawned task, when the stream was read or dropped: `tap` is the state of its wrapper.
  unfoldable pub finish_stream : AccountingContext → Tap → Exec Error (Unit {0})
  finish_stream context tap =
      record_request_outcome x f prices context (Opt.get_or tap.buffer.1 no_usage) true
