-- ===== src/Admin/Routes.antt =====
-- crates/central/src/admin.rs: `router`, the requests that the admin interface takes and their handlers.
-- The extraction of paths, queries and bodies is that of the web framework.
pub mod Quiet
pub mod Audited
pub mod Attributed
use oidc_agent_compat.Prelude.{ℕ, String, Bool, Option, List}
use oidc_agent_compat.External.{External}
use oidc_agent_compat.Error.{Result, ok}
use oidc_agent_compat.World.{pure, ◌>>=◌}
use oidc_agent_compat.Proxy.Http.{Request, Response, Layer}
use oidc_agent_compat.Entity.{AuditLog}
use oidc_agent_compat.Servers.{McpServerInput}
use oidc_agent_compat.Providers.{ProviderInput}
use oidc_agent_compat.Providers.Keys.{ProviderKeyUpdate}
use oidc_agent_compat.Admin.{HandlerError, Handler}
use oidc_agent_compat.Admin.Auth.{AdminNext, admin_auth_middleware}
use oidc_agent_compat.Admin.Policies.{
  GroupPolicyResponse, UpsertPolicyRequest, list_policies_handler, get_policy_handler,
  upsert_policy_handler, delete_policy_handler, get_mcp_policy_handler, set_mcp_policy_handler,
  delete_mcp_policy_handler,
}
use oidc_agent_compat.Admin.Devices.{
  DeviceResponse, list_devices_handler, revoke_device, reinstate_device,
}
use oidc_agent_compat.Admin.Providers.{
  ProviderResponse, UpdateProviderRequest, list_providers_handler, create_provider,
  get_provider_handler, update_provider, delete_provider_handler, set_default_provider_handler,
}
use oidc_agent_compat.Admin.Keys.{
  ProviderKeyResponse, AddProviderKeyRequest, list_keys_handler, get_key_handler, add_key_handler,
  update_key_handler, delete_key_handler,
}
use oidc_agent_compat.Admin.Servers.{
  McpServerResponse, list_mcp_servers, create_mcp_server, upsert_mcp_server, get_mcp_server,
  delete_mcp_server,
}
use oidc_agent_compat.Admin.Reports.{
  AuditQuery, query_audit, TokenSaverSummaryResponse, query_token_saver_summary, UsageResponse,
  query_usage, QuotaResponse, get_quota,
}

-- the requests that only read
pub data Reading : Type 0 where
  get_policies get_devices get_token_saver get_providers get_servers : Reading
  get_one_policy get_one_provider get_keys get_one_server get_mcp_of get_quota_of : String → Reading
  get_one_key : (id key_id : String) → Reading
  get_audit : AuditQuery → Reading
  get_usage_of : Option String → Reading

-- the requests that change something
pub data Change : Type 0 where
  put_policy : (name : String) → UpsertPolicyRequest → Change
  remove_policy post_revoke post_reinstate remove_provider post_default : String → Change
  post_provider : ProviderInput → Change
  put_provider : (id : String) → UpdateProviderRequest → Change
  post_key : (id : String) → AddProviderKeyRequest → Change
  put_key : (id key_id : String) → ProviderKeyUpdate → Change
  remove_key : (id key_id : String) → Change
  post_server : McpServerInput → Change
  put_server : (id : String) → McpServerInput → Change
  remove_server remove_mcp_policy : String → Change
  put_mcp_policy : (group : String) → Option (List String) → Change

pub data AdminResponse : Type 0 where
  policies : List GroupPolicyResponse → AdminResponse
  policy : GroupPolicyResponse → AdminResponse
  devices : List DeviceResponse → AdminResponse
  provider_list : List ProviderResponse → AdminResponse
  one_provider : ProviderResponse → AdminResponse
  key_list : List ProviderKeyResponse → AdminResponse
  one_key : ProviderKeyResponse → AdminResponse
  server_list : List McpServerResponse → AdminResponse
  one_server : McpServerResponse → AdminResponse
  mcp_policy : String × Option (List String) → AdminResponse
  audit_rows : List AuditLog → AdminResponse
  saver_summary : TokenSaverSummaryResponse → AdminResponse
  usage_rows : List UsageResponse → AdminResponse
  quota : QuotaResponse → AdminResponse
  status : ℕ → AdminResponse
  deleted : Bool → AdminResponse

-- `into_response`
unfoldable pub respond : {A : Type 0} → (A → AdminResponse) → Handler A → Handler AdminResponse
respond render handler = do a ← handler; pure (render a)

module _ (x : External) where
  unfoldable pub answer_reading : Reading → Handler AdminResponse
  unfolding respond
  answer_reading get_policies = respond policies (list_policies_handler x)
  answer_reading (get_one_policy name) = respond policy (get_policy_handler x name)
  answer_reading get_devices = respond devices list_devices_handler
  answer_reading (get_audit params) = respond audit_rows (query_audit params)
  answer_reading get_token_saver = respond saver_summary (query_token_saver_summary x)
  answer_reading (get_usage_of subject) = respond usage_rows (query_usage subject)
  answer_reading (get_quota_of subject) = respond quota (get_quota x subject)
  answer_reading get_providers = respond provider_list (list_providers_handler x)
  answer_reading (get_one_provider id) = respond one_provider (get_provider_handler x id)
  answer_reading (get_keys id) = respond key_list (list_keys_handler id)
  answer_reading (get_one_key id key_id) = respond one_key (get_key_handler id key_id)
  answer_reading get_servers = respond server_list list_mcp_servers
  answer_reading (get_one_server id) = respond one_server (get_mcp_server id)
  answer_reading (get_mcp_of group) = respond mcp_policy (get_mcp_policy_handler x group)

  module _ (sha256_hex : String → String) (print_request : UpsertPolicyRequest → String)
      (admin : String) where
    unfoldable pub answer_change : Change → Handler AdminResponse
    unfolding respond
    answer_change (put_policy name body) =
        respond policy (upsert_policy_handler x print_request admin name body)
    answer_change (remove_policy name) = respond status (delete_policy_handler x admin name)
    answer_change (post_revoke fingerprint) = respond status (revoke_device admin fingerprint)
    answer_change (post_reinstate fingerprint) = respond status (reinstate_device admin fingerprint)
    answer_change (post_provider body) = respond one_provider (create_provider x admin body)
    answer_change (put_provider id body) = respond one_provider (update_provider x admin id body)
    answer_change (remove_provider id) = respond status (delete_provider_handler x admin id)
    answer_change (post_default id) = respond status (set_default_provider_handler x admin id)
    answer_change (post_key id body) = respond one_key (add_key_handler x sha256_hex admin id body)
    answer_change (put_key id key_id body) =
        respond one_key (update_key_handler admin id key_id body)
    answer_change (remove_key id key_id) = respond status (delete_key_handler admin id key_id)
    answer_change (post_server body) = respond one_server (create_mcp_server x admin body)
    answer_change (put_server id body) = respond one_server (upsert_mcp_server x admin id body)
    answer_change (remove_server id) = respond deleted (delete_mcp_server admin id)
    answer_change (put_mcp_policy group tools) =
        respond mcp_policy (set_mcp_policy_handler x admin group tools)
    answer_change (remove_mcp_policy group) =
        respond deleted (delete_mcp_policy_handler x admin group)

-- The handlers behind the layer. What an answer or an error looks like is a parameter.
module _ (x : External) (sha256_hex : String → String)
    (print_request : UpsertPolicyRequest → String)
    (render : Result HandlerError AdminResponse → Response) where
  unfoldable pub handle_change : Change → AdminNext
  unfolding answer_change
  handle_change c identity request w =
      let (r, v) = answer_change x sha256_hex print_request identity.subject c w in
      (ok (render r), v)

  unfoldable pub serve_change : (admin_group : String) → Change → Request → Layer
  unfolding handle_change admin_auth_middleware
  serve_change admin_group c = admin_auth_middleware x admin_group (handle_change c)
