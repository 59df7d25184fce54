-- ===== src/Proxy/Auth.antt =====
-- crates/central/src/proxy/auth.rs: `auth_middleware`.
pub mod Laws
use oidc_agent_compat.Prelude.{
  ℕ, String, ◌==◌, Bool, true, false, Option, none, some, if◌then◌else◌,
}
use oidc_agent_compat.Error.{Error, Result, ok, err}
use oidc_agent_compat.External.{External}
use oidc_agent_compat.World.{World, Exec, raise, ◌>>=◌, attempt}
use oidc_agent_compat.Keys.{extract_bearer}
use oidc_agent_compat.Token.{TokenIdentity, verify_token}
use oidc_agent_compat.Proxy.Http.{VerifiedRelayIdentity, Request, header_text, Next, Layer, run}

-- `get(…).and_then(|h| h.to_str().ok()).and_then(extract_bearer)`
abbrev pub bearer_of : Request → Option String
bearer_of request = elim (header_text "authorization" request) [
  | none ↦ none
  | some text ↦ extract_bearer text
]

abbrev pub header_request_id : String
header_request_id = "x-oac-request-id"

abbrev pub header_device_fingerprint : String
header_device_fingerprint = "x-oac-device-fingerprint"

-- A token that is bound to a device needs the header with the device's fingerprint.
abbrev pub is_bound_here : Option String → Option String → Bool
is_bound_here none header_fp = true
is_bound_here (some stored_fp) none = false
is_bound_here (some stored_fp) (some fp) = fp == stored_fp

abbrev pub attach : TokenIdentity → Request → Request
attach identity request = record request {
  identity = some (record {
    subject = identity.subject;
    email = identity.email;
    identity_id = identity.identity_id;
    groups = identity.groups;
    request_id = header_text header_request_id request;
    token_id = some identity.token_id;
    created_at = some identity.created_at;
  });
}

-- the code behind the verification
unfoldable pub enter : Next → Request → Result Error (Option TokenIdentity) → Layer
enter next request (err e) = raise 500
enter next request (ok none) = raise 401
enter next request (ok (some identity)) =
    if is_bound_here identity.device_fingerprint (header_text header_device_fingerprint request)
    then run next (attach identity request)
    else raise 401

unfoldable pub auth_middleware : External → (dev_mode : Bool) → Next → Request → Layer
unfolding enter
auth_middleware x dev_mode next request =
    if request.path == "/healthz" then run next request else elim (bearer_of request) [
      | none ↦ if dev_mode then run next request else raise 401
      | some bearer ↦ do
        verification ← attempt (verify_token x bearer)
        enter next request verification
    ]
