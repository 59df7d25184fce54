-- ===== src/Admin/Policies.antt =====
-- crates/central/src/admin.rs: the handlers of group policies and of MCP policies.
use mathlib.Core.Option as Opt
use oidc_agent_compat.Prelude.{
  ℕ, String, ◌<>◌, Bool, false, Option, none, some, List, [], map, if◌then◌else◌,
}
use oidc_agent_compat.Prelude.Int.{ℤ, pos, leb_ℤ}
use oidc_agent_compat.Entity.{GroupPolicy, McpServerPolicy}
use oidc_agent_compat.External.{External}
use oidc_agent_compat.World.{pure, raise, ◌>>=◌, ◌>>◌, map_err}
use oidc_agent_compat.Policy.Store.{
  PolicyFields, list_policies, get_policy, upsert_policy_full, delete_policy,
}
use oidc_agent_compat.Policy.Mcp.{get_mcp_policy, upsert_mcp_policy, delete_mcp_policy}
use oidc_agent_compat.Admin.{Handler, internal_error, or_not_found, or_missing, record_admin_audit}

pub record GroupPolicyResponse : Type 0 where
  pub group_name : String
  pub allowed_models : Option (List String)
  pub allowed_endpoints : Option (List String)
  pub daily_token_quota : Option ℤ
  pub daily_request_quota : Option ℤ
  pub token_saver_enabled : Bool
  pub max_input_tokens : Option ℤ
  pub collapse_repeated_lines : Bool
  pub strip_ansi : Bool
  pub max_token_ttl_seconds : Option ℤ

-- a list that is stored as JSON, if it is one
abbrev pub stored_list : External → Option String → Option (List String)
stored_list x none = none
stored_list x (some json) = x.parse_strings json

unfoldable pub policy_response : External → GroupPolicy → GroupPolicyResponse
policy_response x m = record {
  group_name = m.group_name;
  allowed_models = stored_list x m.allowed_models;
  allowed_endpoints = stored_list x m.allowed_endpoints;
  daily_token_quota = m.daily_token_quota;
  daily_request_quota = m.daily_request_quota;
  token_saver_enabled = m.token_saver_enabled;
  max_input_tokens = m.max_input_tokens;
  collapse_repeated_lines = m.collapse_repeated_lines;
  strip_ansi = m.strip_ansi;
  max_token_ttl_seconds = m.max_token_ttl_seconds;
}

pub record UpsertPolicyRequest : Type 0 where
  pub allowed_models : Option (List String)
  pub allowed_endpoints : Option (List String)
  pub daily_token_quota : Option ℤ
  pub daily_request_quota : Option ℤ
  pub token_saver_enabled : Bool
  pub max_input_tokens : Option ℤ
  pub collapse_repeated_lines : Bool
  pub strip_ansi : Bool
  pub max_token_ttl_seconds : Option ℤ

-- `is_some_and(|v| v <= 0)`
abbrev pub not_positive : Option ℤ → Bool
not_positive none = false
not_positive (some v) = leb_ℤ v (pos 0)

unfoldable pub fields_of : External → UpsertPolicyRequest → PolicyFields
fields_of x body = record {
  allowed_models = Opt.map x.print_strings body.allowed_models;
  allowed_endpoints = Opt.map x.print_strings body.allowed_endpoints;
  daily_token_quota = body.daily_token_quota;
  daily_request_quota = body.daily_request_quota;
  token_saver_enabled = body.token_saver_enabled;
  max_input_tokens = body.max_input_tokens;
  collapse_repeated_lines = body.collapse_repeated_lines;
  strip_ansi = body.strip_ansi;
  max_token_ttl_seconds = body.max_token_ttl_seconds;
}

unfoldable pub validate_policy : UpsertPolicyRequest → Handler (Unit {0})
validate_policy body =
    if not_positive body.max_input_tokens
    then raise (400, "max_input_tokens must be a positive integer")
    else if not_positive body.max_token_ttl_seconds
    then raise (400, "max_token_ttl_seconds must be a positive integer")
    else pure tt

abbrev pub policy_missing : String → String
policy_missing name = "policy '" <> name <> "' not found"

module _ (x : External) where
  unfoldable pub list_policies_handler : Handler (List GroupPolicyResponse)
  unfolding policy_response
  list_policies_handler = do
    policies ← map_err internal_error list_policies
    pure (map (policy_response x) policies)

  unfoldable pub get_policy_handler : String → Handler GroupPolicyResponse
  unfolding policy_response or_not_found
  get_policy_handler name = do
    found ← map_err internal_error (get_policy name)
    policy ← or_not_found (policy_missing name) found
    pure (policy_response x policy)

  -- The request body as JSON, which is the payload of the audit entry, is a parameter.
  unfoldable pub upsert_policy_handler :
      (print_request : UpsertPolicyRequest → String)
      → (admin name : String) → UpsertPolicyRequest
      → Handler GroupPolicyResponse
  unfolding validate_policy fields_of policy_response record_admin_audit
  upsert_policy_handler print_request admin name body = do
    validate_policy body
    policy ← map_err internal_error (upsert_policy_full name (fields_of x body))
    record_admin_audit admin "upsert_policy" name (some (print_request body))
    pure (policy_response x policy)

  unfoldable pub delete_policy_handler : (admin name : String) → Handler ℕ
  unfolding or_missing record_admin_audit
  delete_policy_handler admin name = do
    deleted ← map_err internal_error (delete_policy name)
    or_missing (policy_missing name) deleted
    record_admin_audit admin "delete_policy" name none
    pure 204

  -- a list that cannot be read is an empty one
  abbrev pub stored_tools : Option McpServerPolicy → Option (List String)
  stored_tools none = none
  stored_tools (some p) =
      Opt.map (λ (s : String). Opt.get_or (x.parse_strings s) []) p.allowed_tools

  unfoldable pub get_mcp_policy_handler : String → Handler (String × Option (List String))
  get_mcp_policy_handler group = do
    policy ← map_err internal_error (get_mcp_policy group)
    pure (group, stored_tools policy)

  unfoldable pub set_mcp_policy_handler :
      (admin group : String) → Option (List String) → Handler (String × Option (List String))
  unfolding record_admin_audit
  set_mcp_policy_handler admin group allowed_tools = do
    map_err internal_error (upsert_mcp_policy x group allowed_tools)
    record_admin_audit admin "upsert_mcp_policy" group (Opt.map x.print_strings allowed_tools)
    pure (group, allowed_tools)

  -- The answer says whether there was a policy.
  unfoldable pub delete_mcp_policy_handler : (admin group : String) → Handler Bool
  unfolding record_admin_audit
  delete_mcp_policy_handler admin group = do
    deleted ← map_err internal_error (delete_mcp_policy group)
    record_admin_audit admin "delete_mcp_policy" group none
    pure deleted
