-- ===== src/Proxy/Forward.antt =====
-- crates/central/src/proxy/forward.rs: what the proxy reads in the bodies of providers and relays.
pub mod Stream
pub mod Retry
pub mod Accounting
pub mod Handler
use oidc_agent_compat.Prelude.{
  ℕ, String, Bool, true, false, ◌&&◌, Option, none, some, List, if◌then◌else◌,
}
use oidc_agent_compat.Prelude.Int.{ℤ, pos, negsuc, leb_ℤ}
use oidc_agent_compat.External.{External, Json, number, object, boolean, end, field}
use oidc_agent_compat.Json.{get}
use oidc_agent_compat.Optimizer.Messages.{set}

pub record TokenUsage : Type 0 where
  pub prompt : Option ℤ
  pub completion : Option ℤ
  pub total : Option ℤ

-- `TokenUsage::default()`
abbrev pub no_usage : TokenUsage
no_usage = record { prompt = none; completion = none; total = none }

-- `i32::try_from(v).ok()`
unfoldable pub to_i32 : ℤ → Option ℤ
to_i32 v = if leb_ℤ (negsuc 2_147_483_647) v && leb_ℤ v (pos 2_147_483_647) then some v else none

-- the number of a field, if it is an i64 and then an i32
unfoldable pub count_of_number : External → Option Json → Option ℤ
unfolding to_i32
count_of_number x (some (number text)) = elim (x.as_i64 text) [ none ↦ none | some v ↦ to_i32 v ]
count_of_number x _ = none

unfoldable pub extract_token_usage_from_value : External → Json → TokenUsage
unfolding get count_of_number
extract_token_usage_from_value x value = elim (get "usage" value) [
  | none ↦ no_usage
  | some usage ↦ record {
    prompt = count_of_number x (get "prompt_tokens" usage);
    completion = count_of_number x (get "completion_tokens" usage);
    total = count_of_number x (get "total_tokens" usage);
  }
]

unfoldable pub extract_token_usage : External → List ℕ → TokenUsage
unfolding extract_token_usage_from_value
extract_token_usage x body = elim (x.parse_json body) [
  | none ↦ no_usage
  | some value ↦ extract_token_usage_from_value x value
]

-- `as_bool`, with `false` for anything else
unfoldable pub is_true : Option Json → Bool
is_true (some (boolean b)) = b
is_true _ = false

-- the options with usage asked for; `none` where they ask for it already
unfoldable pub stream_options_with_usage : Option Json → Option Json
unfolding get is_true set
stream_options_with_usage (some (object fs)) =
    if is_true (get "include_usage" (object fs))
    then none
    else some (set "include_usage" (boolean true) (object fs))
stream_options_with_usage _ = some (object (field "include_usage" (boolean true) end))

-- Only an object has a field `stream`.
unfoldable pub inject_stream_usage_option : External → List ℕ → List ℕ
unfolding stream_options_with_usage get is_true set
inject_stream_usage_option x body = elim (x.parse_json body) [
  | none ↦ body
  | some value ↦
      if is_true (get "stream" value)
      then elim (stream_options_with_usage (get "stream_options" value)) [
        | none ↦ body
        | some options ↦ x.encode_json (set "stream_options" options value)
      ]
      else body
]
