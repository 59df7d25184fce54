-- ===== src/Proxy/Permissions.antt =====
-- crates/central/src/proxy/permissions.rs: `permissions_middleware` and `deny`. Each check of the
-- middleware is a function that ends with the call of the next check.
pub mod Deny
pub mod Tested
pub mod Gate
pub mod Forward
pub mod Complete
pub mod Answer
use mathlib.Core.Option as Opt
use oidc_agent_compat.Prelude.{
  ltb, ℕ, ◌+◌, ◌-◌, ◌*◌, ◌/◌, max, String, ◌<>◌, ◌==◌, Bool, true, false, ◌&&◌, Option, none, some,
  List, [], if◌then◌else◌, eqb,
}
use oidc_agent_compat.Prelude.Int.{ℤ, pos, leb_ℤ}
use oidc_agent_compat.Error.{Error, Result, ok, err}
use oidc_agent_compat.Entity.{AuditEntry, UsageCounter}
use oidc_agent_compat.External.{External}
use oidc_agent_compat.World.{World, Exec, pure, raise, ◌>>=◌, ◌>>◌, attempt, now_utc, second}
use oidc_agent_compat.Json.{extract_model}
use oidc_agent_compat.Audit.{record_entry}
use oidc_agent_compat.Device.{is_revoked, upsert_device}
use oidc_agent_compat.Policy.Merge.{ResolvedPolicy, is_model_allowed, is_endpoint_allowed}
use oidc_agent_compat.Policy.Store.{resolve_policy}
use oidc_agent_compat.Token.{check_backstop, revoke_by_token_id}
use oidc_agent_compat.Usage.{get_usage, try_reserve_request}
use oidc_agent_compat.Proxy.Http.{
  VerifiedRelayIdentity, PermissionDecision, TokenSaverGrant, Request, Response, Body,
  permission_denied, Next, Layer, run,
}

abbrev pub day : ℕ
day = 86_400 * second

-- 9999-12-31, the last date
abbrev pub last_date : ℕ
last_date = 2_932_896

-- `next_day().unwrap_or(now.date())`
abbrev pub next_date : ℕ → ℕ
next_date date = if ltb date last_date then date + 1 else date

-- `(midnight - now).whole_seconds()`, where a negative number is 0, `.max(1)`
unfoldable pub seconds_until_midnight_utc : ℕ → ℕ
seconds_until_midnight_utc now = max ((next_date (now / day) * day - now) / second) 1

-- `identity_id`, or the subject
abbrev pub device_id : VerifiedRelayIdentity → String
device_id identity = Opt.get_or identity.identity_id identity.subject

abbrev pub denied_entry :
    VerifiedRelayIdentity
    → (endpoint : String) → (model : Option String) → (reason : String) → ℕ
    → AuditEntry
denied_entry identity endpoint model reason status = record {
  device_id = device_id identity;
  user_subject = identity.subject;
  model = model;
  backend = "unresolved";
  status = status;
  latency_ms = 0;
  stream = false;
  prompt_tokens = none;
  completion_tokens = none;
  total_tokens = none;
  identity_id = identity.identity_id;
  email = identity.email;
  groups = identity.groups;
  endpoint = some endpoint;
  request_id = identity.request_id;
  permission_decision = some "denied";
  denial_reason = some reason;
  cost_usd = none;
  token_saver_applied = none;
  tokens_saved = none;
  messages_dropped = none;
  saver_reasons = none;
  mcp_server = none;
  mcp_tool = none;
  mcp_method = none;
  mcp_args_preview = none;
}

-- a failure to write the audit entry is logged
unfoldable pub deny :
    VerifiedRelayIdentity → (endpoint : String) → Option String → (reason : String) → ℕ → Layer
deny identity endpoint model reason status = do
  attempt {F = ℕ} (record_entry (denied_entry identity endpoint model reason status))
  now ← now_utc
  pure (record {
    status = status;
    retry_after = if eqb status 429 then some (seconds_until_midnight_utc now) else none;
    body = permission_denied ("access denied: " <> reason);
  })

abbrev pub groups_of : External → Option String → List String
groups_of x none = []
groups_of x (some g) = Opt.get_or (x.parse_strings g) []

abbrev pub allowed : Bool → PermissionDecision
allowed request_reserved = record {
  decision = "allowed";
  reason = none;
  request_reserved = request_reserved;
}

abbrev pub grant_of : ResolvedPolicy → Request → Option TokenSaverGrant
grant_of policy request =
    if policy.token_saver.enabled
    then some (record { config = policy.token_saver })
    else request.grant

abbrev pub backstop_reason : String
backstop_reason = "token backstop exceeded: token is older than the maximum allowed lifetime"

module _ (x : External) (next : Next) (identity : VerifiedRelayIdentity) where
  -- all checks passed
  unfoldable pub forward : ResolvedPolicy → Bool → Request → Layer
  forward policy request_reserved request = run next (record request {
    decision = some (allowed request_reserved);
    grant = grant_of policy request;
  })

  unfoldable pub reserved : ResolvedPolicy → Request → Result Error Bool → Layer
  unfolding deny forward
  reserved policy request (ok true) = forward policy true request
  reserved policy request (ok false) = deny identity request.path none "quota_exceeded" 429
  reserved policy request (err e) = raise 503

  -- the argument is the policy's `daily_request_quota`
  unfoldable pub check_request_quota : ResolvedPolicy → Request → Option ℤ → Layer
  unfolding reserved forward
  check_request_quota policy request none = forward policy false request
  check_request_quota policy request (some quota) = do
    answer ← attempt (try_reserve_request identity.subject identity.groups quota)
    reserved policy request answer

  unfoldable pub compare_tokens :
      ResolvedPolicy → Request → ℤ → Result Error (Option UsageCounter) → Layer
  unfolding check_request_quota deny
  compare_tokens policy request quota (ok none) =
      check_request_quota policy request policy.daily_request_quota
  compare_tokens policy request quota (ok (some usage)) =
      if leb_ℤ quota usage.token_count
      then deny identity request.path none "token_quota_exceeded" 429
      else check_request_quota policy request policy.daily_request_quota
  compare_tokens policy request quota (err e) = raise 503

  -- the argument is the policy's `daily_token_quota`
  unfoldable pub check_token_quota : ResolvedPolicy → Request → Option ℤ → Layer
  unfolding compare_tokens check_request_quota
  check_token_quota policy request none =
      check_request_quota policy request policy.daily_request_quota
  check_token_quota policy request (some quota) = do
    usage ← attempt (get_usage identity.subject)
    compare_tokens policy request quota usage

  unfoldable pub check_body_model : ResolvedPolicy → Request → Option String → Layer
  unfolding check_token_quota deny
  check_body_model policy request none = check_token_quota policy request policy.daily_token_quota
  check_body_model policy request (some model) =
      if is_model_allowed policy model
      then check_token_quota policy request policy.daily_token_quota
      else deny identity request.path (some model) "model_not_allowed" 403

  -- the argument is what reading the body gives
  unfoldable pub check_body : ResolvedPolicy → Request → Option (List ℕ) → Layer
  unfolding check_body_model
  check_body policy request none = raise 400
  check_body policy request (some bytes) = check_body_model policy request (extract_model x bytes)

  unfoldable pub check_model : ResolvedPolicy → Request → Layer
  unfolding check_body check_token_quota
  check_model policy request =
      if request.method == "POST"
      then check_body policy request request.body
      else check_token_quota policy request policy.daily_token_quota

  unfoldable pub check_endpoint : ResolvedPolicy → Request → Layer
  unfolding check_model deny
  check_endpoint policy request =
      if is_endpoint_allowed policy request.path
      then check_model policy request
      else deny identity request.path none "endpoint_not_allowed" 403

  -- `Some(false)` and `None` are the same arm; a failure to register the device is logged
  unfoldable pub register : ResolvedPolicy → Request → Layer
  unfolding check_endpoint
  register policy request = do
    attempt (upsert_device (device_id identity) identity.subject identity.email)
    check_endpoint policy request

  unfoldable pub admit : ResolvedPolicy → Request → Result Error (Option Bool) → Layer
  unfolding register deny
  admit policy request (ok (some true)) = deny identity request.path none "device_revoked" 403
  admit policy request (ok (some false)) = register policy request
  admit policy request (ok none) = register policy request
  admit policy request (err e) = raise 503

  unfoldable pub check_device : ResolvedPolicy → Request → Layer
  unfolding admit
  check_device policy request = do
    revoked ← attempt (is_revoked (device_id identity))
    admit policy request revoked

  -- `if let (Some(token_id), Some(created_at)) = …`; a failure to delete the token is logged
  unfoldable pub check_token_age : ResolvedPolicy → Request → Option String → Option ℕ → Layer
  unfolding check_device deny
  check_token_age policy request (some token_id) (some created_at) = do
    now ← now_utc
    if check_backstop now created_at policy.max_token_ttl_seconds
        then (do
          attempt {F = ℕ} (revoke_by_token_id token_id)
          deny identity request.path none backstop_reason 401)
        else check_device policy request
  check_token_age policy request token_id created_at = check_device policy request

  unfoldable pub enforce : Request → Result Error ResolvedPolicy → Layer
  unfolding check_token_age
  enforce request (err e) = raise 503
  enforce request (ok policy) = check_token_age policy request identity.token_id identity.created_at

unfoldable pub permissions_middleware : External → Next → Request → Layer
unfolding enforce
permissions_middleware x next request =
    if request.path == "/healthz" then run next request else elim request.identity [
      | none ↦ run next request
      | some identity ↦ do
        policy ← attempt (resolve_policy x (groups_of x identity.groups))
        enforce x next identity request policy
    ]
