-- ===== src/Proxy/Permissions/Tested.antt =====
-- What crates/central/src/proxy/permissions.rs tests of a request, as functions of what it reads, and
-- what it hands on.
use oidc_agent_compat.Prelude.{
  ℕ, String, ◌==◌, ◌≡◌, ◌⊎◌, inl, inr, Bool, true, false, not, Option, none, some, List,
  if◌then◌else◌,
}
use oidc_agent_compat.Prelude.Int.{ℤ, pos, ◌+ℤ◌, ◌≤ℤ◌, leb_ℤ}
use oidc_agent_compat.Error.{Result}
use oidc_agent_compat.Entity.{UsageCounter, Device}
use oidc_agent_compat.External.{External}
use oidc_agent_compat.World.{World}
use oidc_agent_compat.Json.{extract_model}
use oidc_agent_compat.Policy.Merge.{ResolvedPolicy, is_model_allowed}
use oidc_agent_compat.Token.{check_backstop}
use oidc_agent_compat.Proxy.Http.{Request, Response, Next, run}
use oidc_agent_compat.Proxy.Permissions.{allowed, grant_of}
use oidc_agent_compat.Proxy.Permissions.Deny.{refuses}

-- A layer refuses, or it hands a request and a world with a property to the rest of the service.
module _ (next : Next) where
  abbrev pub Outcome : (Request → World → Type 0) → Result ℕ Response × World → Type 0
  Outcome P r =
      (refuses r.0 ≡ true)
      ⊎ ((request : Request) × (v : World) × (r ≡ run next request v) × P request v)

  pub Outcome-map :
      (P Q : Request → World → Type 0) {r : Result ℕ Response × World}
      → Outcome P r
      → ((request : Request) (v : World) → P request v → Q request v)
      → Outcome Q r
  Outcome-map P Q (inl refused) f = inl refused
  Outcome-map P Q (inr (request, v, same, p)) f = inr (request, v, same, f request v p)

-- the tests of the middleware, as functions of what they read
abbrev pub body_model_permitted : ResolvedPolicy → Option String → Bool
body_model_permitted policy none = true
body_model_permitted policy (some model) = is_model_allowed policy model

abbrev pub body_permitted : External → ResolvedPolicy → Option (List ℕ) → Bool
body_permitted x policy none = false
body_permitted x policy (some bytes) = body_model_permitted policy (extract_model x bytes)

abbrev pub model_permitted : External → ResolvedPolicy → Request → Bool
model_permitted x policy request =
    if request.method == "POST" then body_permitted x policy request.body else true

abbrev pub below_quota : ℤ → Option UsageCounter → Bool
below_quota quota none = true
below_quota quota (some usage) = not (leb_ℤ quota usage.token_count)

abbrev pub tokens_permitted : Option ℤ → Option UsageCounter → Bool
tokens_permitted none usage = true
tokens_permitted (some quota) usage = below_quota quota usage

abbrev pub not_revoked : Option Device → Bool
not_revoked none = true
not_revoked (some device) = not device.revoked

abbrev pub is_young : ResolvedPolicy → Option String → Option ℕ → ℕ → Bool
is_young policy (some token_id) (some created_at) now =
    not (check_backstop now created_at policy.max_token_ttl_seconds)
is_young policy _ _ now = true

abbrev pub is_set : Option ℤ → Bool
is_set none = false
is_set (some quota) = true

-- the request as it is handed on
abbrev pub granted_request : ResolvedPolicy → Bool → Request → Request
granted_request policy has_quota request = record request {
  decision = some (allowed has_quota);
  grant = grant_of policy request;
}

-- the count of the user's requests before and after the reservation of one under a quota
abbrev pub Reserved : Option ℤ → (before after : ℤ) → Type 0
Reserved none before after = after ≡ before
Reserved (some quota) before after = (after ≡ before +ℤ pos 1) × (after ≤ℤ quota)
