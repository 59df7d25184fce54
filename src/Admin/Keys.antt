-- ===== src/Admin/Keys.antt =====
-- crates/central/src/admin.rs: the handlers of the keys of providers.
use oidc_agent_compat.Prelude.{ℕ, String, ◌<>◌, Bool, none, List, map}
use oidc_agent_compat.Prelude.Int.{ℤ}
use oidc_agent_compat.Entity.{Provider}
use oidc_agent_compat.External.{External}
use oidc_agent_compat.World.{pure, ◌>>=◌, ◌>>◌, map_err}
use oidc_agent_compat.Providers.{get_provider}
use oidc_agent_compat.Providers.Access.{key_access_groups}
use oidc_agent_compat.Providers.Keys.{
  ProviderKeyInfo, ProviderKeyUpdate, key_info, list_keys, get_key, add_key, update_key, delete_key,
}
use oidc_agent_compat.Admin.{
  Handler, internal_error, map_validation_err, or_not_found, or_missing, provider_missing,
  record_admin_audit,
}

pub record ProviderKeyResponse : Type 0 where
  pub id : String
  pub provider_id : String
  pub label : String
  pub priority : ℤ
  pub key_digest : String
  pub enabled : Bool
  pub allowed_groups : List String

unfoldable pub key_response : ProviderKeyInfo → ProviderKeyResponse
key_response key = record {
  id = key.id;
  provider_id = key.provider_id;
  label = key.label;
  priority = key.priority;
  key_digest = key.key_digest;
  enabled = key.enabled;
  allowed_groups = key.allowed_groups;
}

pub record AddProviderKeyRequest : Type 0 where
  pub key : String
  pub label : String
  pub priority : ℤ
  pub allowed_groups : List String

abbrev pub key_missing : String → String
key_missing key_id = "provider key '" <> key_id <> "' not found"

unfoldable pub require_provider : String → Handler Provider
unfolding or_not_found
require_provider id = do
  found ← map_err internal_error (get_provider id)
  or_not_found (provider_missing id) found

unfoldable pub list_keys_handler : String → Handler (List ProviderKeyResponse)
unfolding require_provider key_response
list_keys_handler id = do
  require_provider id
  keys ← map_err internal_error (list_keys id)
  pure (map key_response keys)

unfoldable pub get_key_handler : (id key_id : String) → Handler ProviderKeyResponse
unfolding or_not_found key_response
get_key_handler id key_id = do
  found ← map_err internal_error (get_key id key_id)
  key ← or_not_found (key_missing key_id) found
  groups ← map_err internal_error (key_access_groups key.id)
  pure (key_response (key_info key groups))

unfoldable pub add_key_handler :
    External
    → (sha256_hex : String → String) → (admin id : String) → AddProviderKeyRequest
    → Handler ProviderKeyResponse
unfolding require_provider key_response record_admin_audit
add_key_handler x sha256_hex admin id body = do
  require_provider id
  key ←
      map_err map_validation_err
        (add_key x sha256_hex id body.label body.key body.priority body.allowed_groups)
  record_admin_audit admin "add_provider_key" id none
  pure (key_response key)

-- `UpdateProviderKeyRequest` has the fields of `ProviderKeyUpdate`.
unfoldable pub update_key_handler :
    (admin provider_id key_id : String) → ProviderKeyUpdate → Handler ProviderKeyResponse
unfolding or_not_found key_response record_admin_audit
update_key_handler admin provider_id key_id changes = do
  found ← map_err internal_error (get_key provider_id key_id)
  or_not_found (key_missing key_id) found
  key ← map_err map_validation_err (update_key provider_id key_id changes)
  record_admin_audit admin "update_provider_key" key_id none
  pure (key_response key)

unfoldable pub delete_key_handler : (admin provider_id key_id : String) → Handler ℕ
unfolding require_provider or_missing record_admin_audit
delete_key_handler admin provider_id key_id = do
  require_provider provider_id
  deleted ← map_err internal_error (delete_key provider_id key_id)
  or_missing (key_missing key_id) deleted
  record_admin_audit admin "delete_provider_key" key_id none
  pure 204
