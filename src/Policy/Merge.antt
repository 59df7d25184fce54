-- ===== src/Policy/Merge.antt =====
-- crates/central/src/policy.rs: `ResolvedPolicy` and the loop of `PolicyStore::resolve_policy`,
-- with `TokenSaverConfig` of crates/central/src/optimizer.rs.
pub mod Allow
pub mod Limits
use mathlib.Core.Option as Opt
use oidc_agent_compat.Prelude.{
  ℕ, String, ◌==◌, Bool, true, false, ◌||◌, Option, none, some, List, [], ◌∷◌, ◌++◌, any,
}
use oidc_agent_compat.Prelude.Int.{ℤ, max_ℤ, min_ℤ, as_u64}
use oidc_agent_compat.Entity.{GroupPolicy}

pub record TokenSaverConfig : Type 0 where
  pub enabled : Bool
  pub max_input_tokens : Option ℕ
  pub collapse_repeated_lines : Bool
  pub strip_ansi : Bool

pub record ResolvedPolicy : Type 0 where
  pub allowed_models : Option (List String)
  pub allowed_endpoints : Option (List String)
  pub daily_token_quota : Option ℤ
  pub daily_request_quota : Option ℤ
  pub token_saver : TokenSaverConfig
  pub max_token_ttl_seconds : Option ℤ

abbrev pub contains : List String → String → Bool
contains set s = any (λ x. x == s) set

abbrev pub permits : Option (List String) → String → Bool
permits none s = true
permits (some set) s = contains set s

unfoldable pub is_model_allowed : ResolvedPolicy → String → Bool
is_model_allowed p model = permits p.allowed_models model

unfoldable pub is_endpoint_allowed : ResolvedPolicy → String → Bool
is_endpoint_allowed p endpoint = permits p.allowed_endpoints endpoint

-- `#[derive(Default)]`
abbrev pub default_policy : ResolvedPolicy
default_policy = record {
  allowed_models = none;
  allowed_endpoints = none;
  daily_token_quota = none;
  daily_request_quota = none;
  token_saver = record {
    enabled = false;
    max_input_tokens = none;
    collapse_repeated_lines = false;
    strip_ansi = false;
  };
  max_token_ttl_seconds = none;
}

-- the variables of the loop
pub record Merged : Type 0 where
  pub allowed_models : Option (List String)
  pub allowed_endpoints : Option (List String)
  pub daily_token_quota : Option ℤ
  pub daily_request_quota : Option ℤ
  pub token_saver_enabled : Bool
  pub max_input_tokens : Option ℤ
  pub collapse_repeated_lines : Bool
  pub strip_ansi : Bool
  pub max_token_ttl_seconds : Option ℤ

abbrev pub nothing_merged : Merged
nothing_merged = record {
  allowed_models = some [];
  allowed_endpoints = some [];
  daily_token_quota = none;
  daily_request_quota = none;
  token_saver_enabled = false;
  max_input_tokens = none;
  collapse_repeated_lines = false;
  strip_ansi = false;
  max_token_ttl_seconds = none;
}

-- a list that does not parse adds nothing
abbrev pub extend : List String → Option (List String) → List String
extend acc none = acc
extend acc (some more) = acc ++ more

-- `match (row_models, &mut allowed_models)`
unfoldable pub merge_allowlist :
    (String → Option (List String)) → Option String → Option (List String) → Option (List String)
merge_allowlist parse none acc = none
merge_allowlist parse (some json) (some acc) = some (extend acc (parse json))
merge_allowlist parse (some json) none = none

-- `match (daily_token_quota, row_token_quota)`
unfoldable pub merge_quota : Option ℤ → Option ℤ → Option ℤ
merge_quota none (some q) = some q
merge_quota (some a) (some b) = some (max_ℤ a b)
merge_quota a none = a

-- `if row_max_input.is_none() … else if let Some(row_budget) …`
unfoldable pub merge_budget : Option ℤ → Option ℤ → Option ℤ
merge_budget acc none = none
merge_budget none (some row_budget) = some row_budget
merge_budget (some acc) (some row_budget) = some (max_ℤ acc row_budget)

-- `if let Some(row_cap) = row_max_ttl`
unfoldable pub merge_cap : Option ℤ → Option ℤ → Option ℤ
merge_cap acc none = acc
merge_cap none (some row_cap) = some row_cap
merge_cap (some acc) (some row_cap) = some (min_ℤ acc row_cap)

module _ (parse : String → Option (List String)) where
  -- one round of `for row in rows`
  unfoldable pub merge_row : Merged → GroupPolicy → Merged
  merge_row acc row = record {
    allowed_models = merge_allowlist parse row.allowed_models acc.allowed_models;
    allowed_endpoints = merge_allowlist parse row.allowed_endpoints acc.allowed_endpoints;
    daily_token_quota = merge_quota acc.daily_token_quota row.daily_token_quota;
    daily_request_quota = merge_quota acc.daily_request_quota row.daily_request_quota;
    token_saver_enabled = row.token_saver_enabled || acc.token_saver_enabled;
    max_input_tokens = merge_budget acc.max_input_tokens row.max_input_tokens;
    collapse_repeated_lines = row.collapse_repeated_lines || acc.collapse_repeated_lines;
    strip_ansi = row.strip_ansi || acc.strip_ansi;
    max_token_ttl_seconds = merge_cap acc.max_token_ttl_seconds row.max_token_ttl_seconds;
  }

  unfoldable pub merge_rows : Merged → List GroupPolicy → Merged
  merge_rows acc [] = acc
  merge_rows acc (row ∷ rows) = merge_rows (merge_row acc row) rows

  -- the value built after the loop
  unfoldable pub finish : Merged → ResolvedPolicy
  finish m = record {
    allowed_models = m.allowed_models;
    allowed_endpoints = m.allowed_endpoints;
    daily_token_quota = m.daily_token_quota;
    daily_request_quota = m.daily_request_quota;
    token_saver = record {
      enabled = m.token_saver_enabled;
      max_input_tokens = Opt.map as_u64 m.max_input_tokens;
      collapse_repeated_lines = m.collapse_repeated_lines;
      strip_ansi = m.strip_ansi;
    };
    max_token_ttl_seconds = m.max_token_ttl_seconds;
  }

  -- the rows that the query returned, with the early return for none
  unfoldable pub resolve_rows : List GroupPolicy → ResolvedPolicy
  resolve_rows [] = default_policy
  resolve_rows (row ∷ rows) = finish (merge_rows nothing_merged (row ∷ rows))
