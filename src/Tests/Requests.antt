-- ===== src/Tests/Requests.antt =====
-- The laws of the middleware and the handlers of crates/central/src/proxy at concrete requests.
use oidc_agent_compat.Prelude.{
  ◌/◌, ◌+◌, ◌*◌, ◌≤◌, ◌<◌, ◌⊎◌, String, ◌≡◌, refl, false, none, some, [], ◌∷◌, find,
}
use oidc_agent_compat.Error.{ok}
use oidc_agent_compat.Prelude.Int.{pos}
use oidc_agent_compat.World.{
  ◌>>=◌, attempt, query, write, execute, now_utc, new_v4, second, map_err, format_time,
}
use oidc_agent_compat.Keys.{generate, from_hash_bytes, matches, extract_bearer}
use oidc_agent_compat.Policy.Merge.{
  resolve_rows, merge_rows, merge_row, finish, merge_cap, merge_quota, merge_allowlist,
  is_model_allowed, is_endpoint_allowed,
}
use oidc_agent_compat.Policy.Store.{resolve_policy}
use oidc_agent_compat.Token.{
  verify_token, mint_token, revoke_by_token_id_for_subject, scan, delete_expired, accept,
  touch_last_used, check_backstop,
}
use oidc_agent_compat.Token.Verify.{accepts}
use oidc_agent_compat.Proxy.Auth.{auth_middleware}
use oidc_agent_compat.Proxy.Auth.Laws.{Authentic, auth_middleware_lem}
use oidc_agent_compat.Proxy.Permissions.{
  day, last_date, seconds_until_midnight_utc, permissions_middleware,
}
use oidc_agent_compat.Proxy.Permissions.Deny.{seconds_until_midnight_utc_lem}
use oidc_agent_compat.Proxy.Permissions.Tested.{Outcome}
use oidc_agent_compat.Proxy.Permissions.Gate.{Tested}
use oidc_agent_compat.Proxy.Permissions.Forward.{permitted, policy_of, permissions_middleware_lem}
use oidc_agent_compat.Json.{extract_model, get, get_field, as_str}
use oidc_agent_compat.World.Cases.{with_faults}
use oidc_agent_compat.Proxy.Permissions.Complete.{Passes}
use oidc_agent_compat.Proxy.Permissions.Answer.{permissions_middleware-Passes}
use oidc_agent_compat.Proxy.Tokens.{
  MintTokenRequest, Owner, mint_for, mint_until, effective_ttl, expiry, add_seconds,
  revoke_by_id_handler,
}
use oidc_agent_compat.Proxy.Tokens.Clamp.{Capped, mint_for_lem}
use oidc_agent_compat.Proxy.Tokens.Revoke.{Deleted, revoke_by_id_handler_lem}
use oidc_agent_compat.Proxy.Auth.{bearer_of}
use oidc_agent_compat.Tests.Data.{env, central, ann, chat, handler}

policy_resolves :
    (resolve_policy env ("eng" ∷ []) central).0 ≡ ok (policy_of env ("eng" ∷ []) central)
unfolding resolve_policy query ◌>>=◌
policy_resolves = refl

permissions_example :
    let policy = policy_of env ("eng" ∷ []) central in
    Outcome handler
      (Tested env handler ann policy
        (permitted env handler ann policy (chat (some ann)) central)
        (chat (some ann))
        central)
      (permissions_middleware env handler (chat (some ann)) central)
permissions_example =
    permissions_middleware_lem env handler (chat (some ann)) ann central
      (policy_of env ("eng" ∷ []) central) refl refl policy_resolves

auth_example :
    Outcome handler
      (Authentic env handler (chat none) central)
      (auth_middleware env false handler (chat none) central)
auth_example = auth_middleware_lem env handler (chat none) central refl

midnight_example :
    let wait = seconds_until_midnight_utc (86_399 * second) in
    (1 ≤ wait)
    × (wait ≤ 86_400)
    × (day < 86_399 * second + (wait + 1) * second
        ⊎ (last_date ≤ 86_399 * second / day) × (wait ≡ 1))
    × (86_399 * second + wait * second ≤ day ⊎ wait ≡ 1)
midnight_example = seconds_until_midnight_utc_lem (86_399 * second)

abbrev body : MintTokenRequest
body = record {
  subject = "";
  issuer = "";
  email = none;
  display_name = none;
  groups = none;
  identity_id = none;
  label = "desktop";
  ttl_seconds = some (pos 1_000_000);
}

abbrev ann_owner : Owner
ann_owner = record {
  subject = "ann";
  issuer = "https://idp";
  email = none;
  groups = some "[\"eng\"]";
  identity_id = none;
}

mint_for_example :
    Capped env body none ann_owner
      (central.now + 86_400 * second)
      central
      (record { token = "oac_new"; token_id = "uuid"; expires_at = some (1_086_410 * second) })
      (mint_for env body none ann_owner central).1
unfolding mint_for mint_until mint_token effective_ttl expiry add_seconds resolve_policy
    resolve_rows merge_rows merge_row finish merge_cap query write execute ◌>>=◌ now_utc new_v4
    generate map_err format_time
mint_for_example = mint_for_lem env body none ann_owner 86_400 central refl refl

delete_example :
    (bearer : String) × (bearer_of (chat none) ≡ some bearer)
    × Deleted env
        (chat none)
        "t1"
        (find (accepts env bearer central.now) central.tokens)
        204
        (revoke_by_id_handler env (chat none) "t1" central).1
unfolding revoke_by_id_handler verify_token scan delete_expired accept touch_last_used
    revoke_by_token_id_for_subject query write execute ◌>>=◌ now_utc map_err attempt matches
    from_hash_bytes extract_bearer
delete_example = revoke_by_id_handler_lem env (chat none) "t1" central refl

permissions_middleware-Passes_example :
    Passes env handler ann
      (policy_of env ("eng" ∷ []) central)
      (chat (some ann))
      (permissions_middleware env handler (chat (some ann)) (with_faults central []))
unfolding resolve_rows merge_rows merge_row finish merge_cap merge_quota merge_allowlist
    extract_model get get_field as_str is_model_allowed is_endpoint_allowed check_backstop
permissions_middleware-Passes_example =
    permissions_middleware-Passes env handler (chat (some ann)) ann central refl refl refl refl
