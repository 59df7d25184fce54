-- ===== src/Policy/Store.antt =====
-- crates/central/src/policy.rs: the operations of `PolicyStore` on the table `group_policies`.
pub mod Laws
use oidc_agent_compat.Prelude.{
  ℕ, String, ◌==◌, Bool, false, Option, none, some, List, [], ◌∷◌, ◌++◌, find, any, select, discard,
  update,
}
use oidc_agent_compat.Prelude.Int.{ℤ}
use oidc_agent_compat.Error.{Error}
use oidc_agent_compat.Entity.{GroupPolicy}
use oidc_agent_compat.External.{External}
use oidc_agent_compat.World.{
  World, Exec, pure, ◌>>=◌, ◌>>◌, query, execute, write, now_utc, new_v4, format_time,
}
use oidc_agent_compat.Policy.Merge.{ResolvedPolicy, default_policy, contains, resolve_rows}

module _ (x : External) where
  -- `SELECT … WHERE group_name IN (…)`
  abbrev pub rows_of : List String → World → List GroupPolicy
  rows_of groups w = select (λ r. contains groups r.group_name) w.group_policies

  unfoldable pub resolve_policy : List String → Exec Error ResolvedPolicy
  resolve_policy [] = pure default_policy
  resolve_policy (group ∷ groups) = do
    rows ← query "query group policies" (rows_of (group ∷ groups))
    pure (resolve_rows x.parse_strings rows)

unfoldable pub list_policies : Exec Error (List GroupPolicy)
list_policies = query "list group policies" (λ w. w.group_policies)

abbrev pub has_name : String → GroupPolicy → Bool
has_name group_name r = r.group_name == group_name

abbrev pub has_id : String → GroupPolicy → Bool
has_id id r = r.id == id

unfoldable pub get_policy : String → Exec Error (Option GroupPolicy)
get_policy group_name = query "get group policy" (λ w. find (has_name group_name) w.group_policies)

-- the arguments of `upsert_policy_full` behind the name
pub record PolicyFields : Type 0 where
  pub allowed_models : Option String
  pub allowed_endpoints : Option String
  pub daily_token_quota : Option ℤ
  pub daily_request_quota : Option ℤ
  pub token_saver_enabled : Bool
  pub max_input_tokens : Option ℤ
  pub collapse_repeated_lines : Bool
  pub strip_ansi : Bool
  pub max_token_ttl_seconds : Option ℤ

-- the columns that the `UPDATE` writes
abbrev pub overwrite : PolicyFields → ℕ → GroupPolicy → GroupPolicy
overwrite f now row = record row {
  allowed_models = f.allowed_models;
  allowed_endpoints = f.allowed_endpoints;
  daily_token_quota = f.daily_token_quota;
  daily_request_quota = f.daily_request_quota;
  token_saver_enabled = f.token_saver_enabled;
  max_input_tokens = f.max_input_tokens;
  collapse_repeated_lines = f.collapse_repeated_lines;
  strip_ansi = f.strip_ansi;
  max_token_ttl_seconds = f.max_token_ttl_seconds;
  updated_at = format_time now;
}

abbrev pub new_row : String → String → PolicyFields → (created updated : ℕ) → GroupPolicy
new_row id group_name f created updated = record {
  id = id;
  group_name = group_name;
  allowed_models = f.allowed_models;
  allowed_endpoints = f.allowed_endpoints;
  daily_token_quota = f.daily_token_quota;
  daily_request_quota = f.daily_request_quota;
  token_saver_enabled = f.token_saver_enabled;
  collapse_repeated_lines = f.collapse_repeated_lines;
  strip_ansi = f.strip_ansi;
  max_input_tokens = f.max_input_tokens;
  max_token_ttl_seconds = f.max_token_ttl_seconds;
  created_at = created;
  updated_at = updated;
}

-- Both branches return the row with the unrounded time, and store the rounded one.
unfoldable pub write_policy : String → PolicyFields → Option GroupPolicy → Exec Error GroupPolicy
write_policy group_name f (some model) = do
  now ← now_utc
  write "update group policy" (λ w. record w {
    group_policies = update (has_id model.id) (overwrite f now) w.group_policies;
  })
  pure (new_row model.id group_name f model.created_at now)
write_policy group_name f none = do
  now ← now_utc
  id ← new_v4
  write "insert group policy" (λ w. record w {
    group_policies =
        w.group_policies ++ new_row id group_name f (format_time now) (format_time now) ∷ [];
  })
  pure (new_row id group_name f now now)

unfoldable pub upsert_policy_full : String → PolicyFields → Exec Error GroupPolicy
unfolding write_policy get_policy
upsert_policy_full group_name f = do
  existing ← get_policy group_name
  write_policy group_name f existing

unfoldable pub upsert_policy :
    String → Option String → Option String → Option ℤ → Option ℤ → Exec Error GroupPolicy
upsert_policy group_name allowed_models allowed_endpoints daily_token_quota daily_request_quota =
    upsert_policy_full group_name (record {
      allowed_models = allowed_models;
      allowed_endpoints = allowed_endpoints;
      daily_token_quota = daily_token_quota;
      daily_request_quota = daily_request_quota;
      token_saver_enabled = false;
      max_input_tokens = none;
      collapse_repeated_lines = false;
      strip_ansi = false;
      max_token_ttl_seconds = none;
    })

-- `rows_affected > 0`
unfoldable pub delete_policy : String → Exec Error Bool
delete_policy group_name = execute "delete group policy" (λ w. (
  any (has_name group_name) w.group_policies,
  record w { group_policies = discard (has_name group_name) w.group_policies },
))
