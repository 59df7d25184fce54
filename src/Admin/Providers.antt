-- ===== src/Admin/Providers.antt =====
-- crates/central/src/admin.rs: the handlers of providers.
use oidc_agent_compat.Prelude.{ℕ, String, Bool, Option, none, List, map}
use oidc_agent_compat.Entity.{Provider}
use oidc_agent_compat.External.{External}
use oidc_agent_compat.World.{pure, ◌>>=◌, ◌>>◌, map_err}
use oidc_agent_compat.Providers.{
  ProviderInput, list_providers, get_provider, upsert_provider, delete_provider,
  set_default_provider,
}
use oidc_agent_compat.Admin.{
  Handler, internal_error, map_validation_err, or_not_found, or_missing, provider_missing,
  record_admin_audit,
}
use oidc_agent_compat.Admin.Policies.{stored_list}

pub record ProviderResponse : Type 0 where
  pub id : String
  pub name : String
  pub base_url : String
  pub enabled : Bool
  pub is_default : Bool
  pub models : Option (List String)

unfoldable pub provider_response : External → Provider → ProviderResponse
provider_response x provider = record {
  id = provider.id;
  name = provider.name;
  base_url = provider.base_url;
  enabled = provider.enabled;
  is_default = provider.is_default;
  models = stored_list x provider.models;
}

pub record UpdateProviderRequest : Type 0 where
  pub name : String
  pub base_url : String
  pub enabled : Bool
  pub is_default : Bool
  pub models : Option (List String)

-- the input with the id of the path
abbrev pub input_with : String → UpdateProviderRequest → ProviderInput
input_with id body = record {
  id = id;
  name = body.name;
  base_url = body.base_url;
  enabled = body.enabled;
  is_default = body.is_default;
  models = body.models;
}

-- `CreateProviderRequest` has the fields of `ProviderInput`.
module _ (x : External) where
  unfoldable pub list_providers_handler : Handler (List ProviderResponse)
  unfolding provider_response
  list_providers_handler = do
    providers ← map_err internal_error list_providers
    pure (map (provider_response x) providers)

  unfoldable pub create_provider : (admin : String) → ProviderInput → Handler ProviderResponse
  unfolding provider_response record_admin_audit
  create_provider admin body = do
    provider ← map_err map_validation_err (upsert_provider x body)
    record_admin_audit admin "upsert_provider" body.id none
    pure (provider_response x provider)

  unfoldable pub get_provider_handler : String → Handler ProviderResponse
  unfolding provider_response or_not_found
  get_provider_handler id = do
    found ← map_err internal_error (get_provider id)
    provider ← or_not_found (provider_missing id) found
    pure (provider_response x provider)

  unfoldable pub update_provider :
      (admin id : String) → UpdateProviderRequest → Handler ProviderResponse
  unfolding create_provider or_not_found
  update_provider admin id body = do
    found ← map_err internal_error (get_provider id)
    or_not_found (provider_missing id) found
    create_provider admin (input_with id body)

  unfoldable pub delete_provider_handler : (admin id : String) → Handler ℕ
  unfolding or_missing record_admin_audit
  delete_provider_handler admin id = do
    deleted ← map_err internal_error (delete_provider id)
    or_missing (provider_missing id) deleted
    record_admin_audit admin "delete_provider" id none
    pure 204

  unfoldable pub set_default_provider_handler : (admin id : String) → Handler ℕ
  unfolding record_admin_audit
  set_default_provider_handler admin id = do
    map_err map_validation_err (set_default_provider id)
    record_admin_audit admin "set_default_provider" id none
    pure 204
