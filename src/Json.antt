-- ===== src/Json.antt =====
-- crates/common/src/http_util.rs: `extract_model`, with the two methods of `serde_json::Value` that
-- it calls.
use oidc_agent_compat.Prelude.{ℕ, String, ◌==◌, Option, none, some, List, if◌then◌else◌}
use oidc_agent_compat.External.{External, Json, string, object, Fields, end, field}

-- the keys of an object are different
unfoldable pub get_field : String → Fields → Option Json
get_field key end = none
get_field key (field k v fs) = let later = get_field key fs in if k == key then some v else later

unfoldable pub get : String → Json → Option Json
unfolding get_field
get key (object fs) = get_field key fs
get key _ = none

unfoldable pub as_str : Json → Option String
as_str (string s) = some s
as_str _ = none

-- `http_util::extract_model`
unfoldable pub extract_model : External → List ℕ → Option String
unfolding get as_str
extract_model x body = elim (x.parse_json body) [
  | none ↦ none
  | some value ↦ elim (get "model" value) [ none ↦ none | some model ↦ as_str model ]
]
