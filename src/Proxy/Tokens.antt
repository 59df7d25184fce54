-- ===== src/Proxy/Tokens.antt =====
-- crates/central/src/proxy/tokens.rs: the handlers that mint, list and revoke tokens.
pub mod Clamp
pub mod Revoke
use mathlib.Core.Option as Opt
use oidc_agent_compat.Prelude.{
  ℕ, suc, ◌+◌, ◌-◌, ◌*◌, String, ◌==◌, Bool, true, false, Option, none, some, List, [], map, ltb,
  if◌then◌else◌,
}
use oidc_agent_compat.Prelude.Int.{ℤ, pos, negsuc, leb_ℤ, min_ℤ}
use oidc_agent_compat.Prelude.Text.{is_blank}
use oidc_agent_compat.Error.{Error, Result, ok, err, to_string}
use oidc_agent_compat.Entity.{Token}
use oidc_agent_compat.External.{External}
use oidc_agent_compat.World.{
  World, Exec, pure, raise, lift, ◌>>=◌, ◌>>◌, map_err, now_utc, format_time, second,
}
use oidc_agent_compat.Policy.Store.{resolve_policy}
use oidc_agent_compat.Token.{
  MintRequest, MintedToken, TokenIdentity, mint_token, verify_token, revoke_by_token,
  list_for_subject, revoke_by_token_id_for_subject,
}
use oidc_agent_compat.Proxy.Http.{Request, header_text}
use oidc_agent_compat.Proxy.Auth.{bearer_of, header_device_fingerprint}
use oidc_agent_compat.Proxy.Permissions.{groups_of}

pub record MintTokenRequest : Type 0 where
  pub subject : String
  pub issuer : String
  pub email : Option String
  pub display_name : Option String
  pub groups : Option String
  pub identity_id : Option String
  pub label : String
  pub ttl_seconds : Option ℤ

pub record MintTokenResponse : Type 0 where
  pub token : String
  pub token_id : String
  pub expires_at : Option ℕ

pub record TokenListItem : Type 0 where
  pub id : String
  pub label : String
  pub created_at : ℕ
  pub expires_at : Option ℕ
  pub last_used_at : Option ℕ

-- A status and a text, or the panic of a time that leaves the years that the `time` crate has.
pub data Failure : Type 0 where
  refusal : (status : ℕ) → (message : String) → Failure
  panic : Failure

abbrev pub server_error : Error → Failure
server_error e = refusal 500 (to_string e)

-- `verify_token(bearer)…?.ok_or(…)?`
abbrev pub or_unauthorized : {E : Type 0} → E → Option TokenIdentity → Exec E TokenIdentity
or_unauthorized e none = raise e
or_unauthorized e (some identity) = pure identity

-- the tuple `(subject, issuer, email, groups, identity_id)`
pub record Owner : Type 0 where
  pub subject : String
  pub issuer : String
  pub email : Option String
  pub groups : Option String
  pub identity_id : Option String

abbrev pub owner_of_body : MintTokenRequest → Result Failure Owner
owner_of_body body =
    if is_blank body.subject
    then err (refusal 400 "subject is required")
    else if is_blank body.issuer
    then err (refusal 400 "issuer is required")
    else ok (record {
      subject = body.subject;
      issuer = body.issuer;
      email = body.email;
      groups = body.groups;
      identity_id = body.identity_id;
    })

unfoldable pub owner : External → Option String → MintTokenRequest → Exec Failure Owner
owner x none body = lift (owner_of_body body)
owner x (some bearer) body = do
  verification ← map_err server_error (verify_token x bearer)
  id ← or_unauthorized (refusal 401 "invalid bearer token") verification
  pure (record {
    subject = id.subject;
    issuer = id.issuer;
    email = id.email;
    groups = id.groups;
    identity_id = id.identity_id;
  })

-- `body.ttl_seconds.is_some_and(|t| t <= 0)`
abbrev pub is_not_positive : Option ℤ → Bool
is_not_positive none = false
is_not_positive (some t) = leb_ℤ t (pos 0)

unfoldable pub validate : MintTokenRequest → Result Failure (Unit {0})
validate body =
    if is_blank body.label
    then err (refusal 400 "label is required")
    else if is_not_positive body.ttl_seconds
    then err (refusal 400 "ttl_seconds must be a positive integer")
    else ok tt

-- `match (body.ttl_seconds, policy.max_token_ttl_seconds)`
unfoldable pub effective_ttl : Option ℤ → Option ℤ → Option ℤ
effective_ttl none none = none
effective_ttl none (some cap) = some cap
effective_ttl (some req) none = some req
effective_ttl (some req) (some cap) = some (min_ℤ req cap)

-- the first instant of the year 10000
abbrev pub end_of_time : ℕ
end_of_time = 253_402_300_800 * second

-- `now_utc() + Duration::seconds(s)`, where 0 stands for every time before the epoch
unfoldable pub add_seconds : ℕ → ℤ → Option ℕ
add_seconds now (pos s) =
    if ltb (now + s * second) end_of_time then some (now + s * second) else none
add_seconds now (negsuc n) = some (now - suc n * second)

abbrev pub or_panic : Option ℕ → Result Failure (Option ℕ)
or_panic none = err panic
or_panic (some t) = ok (some t)

unfoldable pub expiry : ℕ → Option ℤ → Result Failure (Option ℕ)
unfolding add_seconds
expiry now none = ok none
expiry now (some ttl) = or_panic (add_seconds now ttl)

abbrev pub mint_request :
    MintTokenRequest → Owner → (expires_at : Option ℕ) → (device : Option String) → MintRequest
mint_request body who expires_at device_fingerprint = record {
  subject = who.subject;
  issuer = who.issuer;
  email = who.email;
  display_name = body.display_name;
  groups = who.groups;
  identity_id = who.identity_id;
  label = body.label;
  expires_at = expires_at;
  device_fingerprint = device_fingerprint;
}

unfoldable pub mint_until :
    External → MintTokenRequest → Option String → Owner → Option ℕ → Exec Failure MintTokenResponse
mint_until x body device_fingerprint who expires_at = do
  minted ← map_err server_error (mint_token x (mint_request body who expires_at device_fingerprint))
  pure (record {
    token = minted.plaintext;
    token_id = minted.token_id;
    expires_at = Opt.map format_time minted.expires_at;
  })

unfoldable pub mint_for :
    External → MintTokenRequest → Option String → Owner → Exec Failure MintTokenResponse
unfolding effective_ttl expiry mint_until
mint_for x body device_fingerprint who = do
  policy ← map_err server_error (resolve_policy x (groups_of x who.groups))
  let ttl = effective_ttl body.ttl_seconds policy.max_token_ttl_seconds
  now ← now_utc
  expires_at ← lift (expiry now ttl)
  mint_until x body device_fingerprint who expires_at

-- the status of a success is 201
unfoldable pub mint_token_handler :
    External → Request → MintTokenRequest → Exec Failure MintTokenResponse
unfolding mint_for owner validate
mint_token_handler x request body = do
  who ← owner x (bearer_of request) body
  lift (validate body)
  mint_for x body (header_text header_device_fingerprint request) who

abbrev pub or_status : {A : Type 0} → ℕ → Option A → Exec ℕ A
or_status status none = raise status
or_status status (some a) = pure a

-- `if revoked { Ok(NO_CONTENT) } else { Err(NOT_FOUND) }`
abbrev pub revocation_status : Bool → Exec ℕ ℕ
revocation_status revoked = if revoked then pure 204 else raise 404

unfoldable pub revoke_current_handler : External → Request → Exec ℕ ℕ
revoke_current_handler x request = do
  bearer ← or_status 401 (bearer_of request)
  revoked ← map_err (λ e. 500) (revoke_by_token x bearer)
  revocation_status revoked

abbrev pub list_item : Token → TokenListItem
list_item t = record {
  id = t.id;
  label = t.label;
  created_at = format_time t.created_at;
  expires_at = Opt.map format_time t.expires_at;
  last_used_at = Opt.map format_time t.last_used_at;
}

unfoldable pub list_tokens_handler : External → Request → Exec ℕ (List TokenListItem)
list_tokens_handler x request = do
  bearer ← or_status 401 (bearer_of request)
  verification ← map_err (λ e. 500) (verify_token x bearer)
  identity ← or_unauthorized 401 verification
  tokens ← map_err (λ e. 500) (list_for_subject identity.subject)
  pure (map list_item tokens)

unfoldable pub revoke_by_id_handler : External → Request → (id : String) → Exec ℕ ℕ
revoke_by_id_handler x request id = do
  bearer ← or_status 401 (bearer_of request)
  verification ← map_err (λ e. 500) (verify_token x bearer)
  identity ← or_unauthorized 401 verification
  revoked ← map_err (λ e. 500) (revoke_by_token_id_for_subject id identity.subject)
  revocation_status revoked
