-- ===== src/Admin/Routes/Audited/Changes.antt =====
-- The audit entry of every request that changes something.
use oidc_agent_compat.Prelude.{String, ◌==◌, Option, List}
use oidc_agent_compat.External.{External}
use oidc_agent_compat.World.{World}
use oidc_agent_compat.Servers.{McpServerInput}
use oidc_agent_compat.Providers.{ProviderInput}
use oidc_agent_compat.Providers.Keys.{ProviderKeyUpdate}
use oidc_agent_compat.Admin.Policies.{
  UpsertPolicyRequest, upsert_policy_handler, delete_policy_handler, set_mcp_policy_handler,
  delete_mcp_policy_handler,
}
use oidc_agent_compat.Admin.Devices.{revoke_device, reinstate_device}
use oidc_agent_compat.Admin.Providers.{
  UpdateProviderRequest, create_provider, update_provider, delete_provider_handler,
  set_default_provider_handler,
}
use oidc_agent_compat.Admin.Keys.{
  AddProviderKeyRequest, require_provider, add_key_handler, update_key_handler, delete_key_handler,
}
use oidc_agent_compat.Admin.Servers.{
  store_mcp_server, create_mcp_server, upsert_mcp_server, delete_mcp_server,
}
use oidc_agent_compat.Admin.Routes.{
  Change, put_policy, remove_policy, post_revoke, post_reinstate, post_provider, put_provider,
  remove_provider, post_default, post_key, put_key, remove_key, post_server, put_server,
  remove_server, put_mcp_policy, remove_mcp_policy, answer_change,
}
use oidc_agent_compat.Admin.Routes.Quiet.{Quiet, quiet}
use oidc_agent_compat.Admin.Routes.Quiet.Stores.{
  revoke-Quiet, reinstate-Quiet, delete_policy-Quiet, upsert_policy_full-Quiet,
  upsert_mcp_policy-Quiet, delete_mcp_policy-Quiet, get_provider-Quiet, upsert_provider-Quiet,
  delete_provider-Quiet, set_default_provider-Quiet, delete_server-Quiet, upsert_server-Quiet,
}
use oidc_agent_compat.Admin.Routes.Quiet.Keys.{
  add_key-Quiet, get_key-Quiet, update_key-Quiet, delete_key-Quiet,
}
use oidc_agent_compat.Admin.Routes.Audited.{
  Audits, Outcome, Audits-raise, Audits-if, respond-Audits, or_not_found-Quiet, audits,
}

require_provider-Quiet : (id : String) → Quiet (require_provider id)
unfolding require_provider
require_provider-Quiet id = search (quiet, get_provider-Quiet, or_not_found-Quiet)

module _ (x : External) (admin : String) where
  create_provider-Audits :
      (body : ProviderInput) → Audits admin "upsert_provider" body.id (create_provider x admin body)
  unfolding create_provider
  create_provider-Audits body = search (audits, upsert_provider-Quiet)

  update_provider-Audits :
      (id : String) (body : UpdateProviderRequest)
      → Audits admin "upsert_provider" id (update_provider x admin id body)
  unfolding update_provider
  update_provider-Audits id body = search (audits, get_provider-Quiet, create_provider-Audits)

  store_mcp_server-Audits :
      (id : String) (body : McpServerInput)
      → Audits admin "upsert_mcp_server" id (store_mcp_server x admin id body)
  unfolding store_mcp_server
  store_mcp_server-Audits id body = search (audits, upsert_server-Quiet)

  create_mcp_server-Audits :
      (body : McpServerInput)
      → Audits admin "upsert_mcp_server" body.id (create_mcp_server x admin body)
  unfolding create_mcp_server
  create_mcp_server-Audits body =
      Audits-if _ _ _ (body.id == "") _ _ (Audits-raise _ _ _ _)
        (store_mcp_server-Audits body.id body)

  set_mcp_policy_handler-Audits :
      (group : String) (tools : Option (List String))
      → Audits admin "upsert_mcp_policy" group (set_mcp_policy_handler x admin group tools)
  unfolding set_mcp_policy_handler
  set_mcp_policy_handler-Audits group tools = search (audits, upsert_mcp_policy-Quiet)

  delete_mcp_policy_handler-Audits :
      (group : String)
      → Audits admin "delete_mcp_policy" group (delete_mcp_policy_handler x admin group)
  unfolding delete_mcp_policy_handler
  delete_mcp_policy_handler-Audits group = search (audits, delete_mcp_policy-Quiet)

  upsert_policy_handler-Audits :
      (print_request : UpsertPolicyRequest → String) (name : String) (body : UpsertPolicyRequest)
      → Audits admin "upsert_policy" name (upsert_policy_handler x print_request admin name body)
  unfolding upsert_policy_handler
  upsert_policy_handler-Audits print_request name body =
      search (audits, upsert_policy_full-Quiet) depth 20

  delete_policy_handler-Audits :
      (name : String) → Audits admin "delete_policy" name (delete_policy_handler x admin name)
  unfolding delete_policy_handler
  delete_policy_handler-Audits name = search (audits, delete_policy-Quiet)

  delete_provider_handler-Audits :
      (id : String) → Audits admin "delete_provider" id (delete_provider_handler x admin id)
  unfolding delete_provider_handler
  delete_provider_handler-Audits id = search (audits, delete_provider-Quiet)

  set_default_provider_handler-Audits :
      (id : String)
      → Audits admin "set_default_provider" id (set_default_provider_handler x admin id)
  unfolding set_default_provider_handler
  set_default_provider_handler-Audits id = search (audits, set_default_provider-Quiet)

  add_key_handler-Audits :
      (sha256_hex : String → String) (id : String) (body : AddProviderKeyRequest)
      → Audits admin "add_provider_key" id (add_key_handler x sha256_hex admin id body)
  unfolding add_key_handler
  add_key_handler-Audits sha256_hex id body = search (audits, require_provider-Quiet, add_key-Quiet)

module _ (admin : String) where
  update_key_handler-Audits :
      (id key_id : String) (body : ProviderKeyUpdate)
      → Audits admin "update_provider_key" key_id (update_key_handler admin id key_id body)
  unfolding update_key_handler
  update_key_handler-Audits id key_id body =
      search (audits, get_key-Quiet, update_key-Quiet) depth 20

  delete_key_handler-Audits :
      (id key_id : String)
      → Audits admin "delete_provider_key" key_id (delete_key_handler admin id key_id)
  unfolding delete_key_handler
  delete_key_handler-Audits id key_id =
      search (audits, require_provider-Quiet, delete_key-Quiet) depth 20

  delete_mcp_server-Audits :
      (id : String) → Audits admin "delete_mcp_server" id (delete_mcp_server admin id)
  unfolding delete_mcp_server
  delete_mcp_server-Audits id = search (audits, delete_server-Quiet)

  revoke_device-Audits :
      (fingerprint : String)
      → Audits admin "revoke_device" fingerprint (revoke_device admin fingerprint)
  unfolding revoke_device
  revoke_device-Audits fingerprint = search (audits, revoke-Quiet)

  reinstate_device-Audits :
      (fingerprint : String)
      → Audits admin "reinstate_device" fingerprint (reinstate_device admin fingerprint)
  unfolding reinstate_device
  reinstate_device-Audits fingerprint = search (audits, reinstate-Quiet)

-- the action that the audit log names for a request, and its target
abbrev pub action_of : Change → String
action_of (put_policy name body) = "upsert_policy"
action_of (remove_policy name) = "delete_policy"
action_of (post_revoke fingerprint) = "revoke_device"
action_of (post_reinstate fingerprint) = "reinstate_device"
action_of (post_provider body) = "upsert_provider"
action_of (put_provider id body) = "upsert_provider"
action_of (remove_provider id) = "delete_provider"
action_of (post_default id) = "set_default_provider"
action_of (post_key id body) = "add_provider_key"
action_of (put_key id key_id body) = "update_provider_key"
action_of (remove_key id key_id) = "delete_provider_key"
action_of (post_server body) = "upsert_mcp_server"
action_of (put_server id body) = "upsert_mcp_server"
action_of (remove_server id) = "delete_mcp_server"
action_of (put_mcp_policy group tools) = "upsert_mcp_policy"
action_of (remove_mcp_policy group) = "delete_mcp_policy"

abbrev pub target_of : Change → String
target_of (put_policy name body) = name
target_of (remove_policy name) = name
target_of (post_revoke fingerprint) = fingerprint
target_of (post_reinstate fingerprint) = fingerprint
target_of (post_provider body) = body.id
target_of (put_provider id body) = id
target_of (remove_provider id) = id
target_of (post_default id) = id
target_of (post_key id body) = id
target_of (put_key id key_id body) = key_id
target_of (remove_key id key_id) = key_id
target_of (post_server body) = body.id
target_of (put_server id body) = id
target_of (remove_server id) = id
target_of (put_mcp_policy group tools) = group
target_of (remove_mcp_policy group) = group

module _ (x : External) (sha256_hex : String → String)
    (print_request : UpsertPolicyRequest → String) (admin : String) where
  change-Audits :
      (c : Change)
      → Audits admin (action_of c) (target_of c) (answer_change x sha256_hex print_request admin c)
  unfolding answer_change upsert_mcp_server
  change-Audits (put_policy name body) =
      respond-Audits _ _ _ _ _ (upsert_policy_handler-Audits x admin print_request name body)
  change-Audits (remove_policy name) =
      respond-Audits _ _ _ _ _ (delete_policy_handler-Audits x admin name)
  change-Audits (post_revoke fingerprint) =
      respond-Audits _ _ _ _ _ (revoke_device-Audits admin fingerprint)
  change-Audits (post_reinstate fingerprint) =
      respond-Audits _ _ _ _ _ (reinstate_device-Audits admin fingerprint)
  change-Audits (post_provider body) =
      respond-Audits _ _ _ _ _ (create_provider-Audits x admin body)
  change-Audits (put_provider id body) =
      respond-Audits _ _ _ _ _ (update_provider-Audits x admin id body)
  change-Audits (remove_provider id) =
      respond-Audits _ _ _ _ _ (delete_provider_handler-Audits x admin id)
  change-Audits (post_default id) =
      respond-Audits _ _ _ _ _ (set_default_provider_handler-Audits x admin id)
  change-Audits (post_key id body) =
      respond-Audits _ _ _ _ _ (add_key_handler-Audits x admin sha256_hex id body)
  change-Audits (put_key id key_id body) =
      respond-Audits _ _ _ _ _ (update_key_handler-Audits admin id key_id body)
  change-Audits (remove_key id key_id) =
      respond-Audits _ _ _ _ _ (delete_key_handler-Audits admin id key_id)
  change-Audits (post_server body) =
      respond-Audits _ _ _ _ _ (create_mcp_server-Audits x admin body)
  change-Audits (put_server id body) =
      respond-Audits _ _ _ _ _ (store_mcp_server-Audits x admin id body)
  change-Audits (remove_server id) = respond-Audits _ _ _ _ _ (delete_mcp_server-Audits admin id)
  change-Audits (put_mcp_policy group tools) =
      respond-Audits _ _ _ _ _ (set_mcp_policy_handler-Audits x admin group tools)
  change-Audits (remove_mcp_policy group) =
      respond-Audits _ _ _ _ _ (delete_mcp_policy_handler-Audits x admin group)

  -- Every request that changes something either answers an error and leaves the audit log of the
  -- administrators as it is, or succeeds and enters one row at its end, with the subject of the
  -- administrator, the action and the target of the request. A request that succeeds without that
  -- row left the log as it is, and does so only when some database statement was to fail.
  pub answer_change-Audits :
      (c : Change) (w : World)
      → Outcome admin
          (action_of c)
          (target_of c)
          w
          (answer_change x sha256_hex print_request admin c w)
  answer_change-Audits c w = (change-Audits c).keeps w
