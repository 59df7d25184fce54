-- ===== src/Optimizer/Prompt.antt =====
-- crates/central/src/optimizer.rs: `optimize_prompt`.
pub mod NeverWorse
use oidc_agent_compat.Prelude.{
  ℕ, ◌-◌, String, ◌==◌, Bool, true, false, Option, none, some, List, [], ◌∷◌, leb, if◌then◌else◌,
}
use oidc_agent_compat.External.{
  External, Json, array, object, null, boolean, number, string, Fields, end, field, Items, nil,
  cons,
}
use oidc_agent_compat.Policy.Merge.{TokenSaverConfig}
use oidc_agent_compat.Json.{get}
use oidc_agent_compat.Optimizer.{
  OptimizationReport, default_report, estimate_tokens, body_for_estimate, to_list, from_list,
}
use oidc_agent_compat.Optimizer.Messages.{Progress, none_yet, set, rewrite_messages}
use oidc_agent_compat.Optimizer.Budget.{enforce_budget}

abbrev pub Answer : Type 0
Answer = List ℕ × OptimizationReport

-- `and_then(as_array_mut)`
unfoldable pub array_of : Option Json → Option (List Json)
unfolding to_list
array_of (some (array items)) = some (to_list items)
array_of _ = none

unfoldable pub remove_field : String → Fields → Fields
remove_field key end = end
remove_field key (field k v fs) =
    let rest = remove_field key fs in if k == key then fs else field k v rest

-- the `tools` section is an empty array
abbrev pub is_empty_array : Option Json → Bool
is_empty_array (some (array nil)) = true
is_empty_array _ = false

unfoldable pub remove : String → Json → Json
unfolding remove_field
remove key (object fs) = object (remove_field key fs)
remove key other = other

unfoldable pub drop_empty_tools : Json → Bool → Json × Bool
unfolding get remove
drop_empty_tools value changed =
    if is_empty_array (get "tools" value) then (remove "tools" value, true) else (value, changed)

-- the report of a rewritten body, before the last guard
unfoldable pub report_rewritten : ℕ → OptimizationReport → OptimizationReport
report_rewritten after r = record r {
  input_tokens_after = after;
  tokens_saved = r.input_tokens_before - after;
  applied = true;
}

-- the report of the last guard
unfoldable pub report_reverted : OptimizationReport → OptimizationReport
report_reverted r = record r {
  never_worse_reverted = true;
  applied = false;
  input_tokens_after = r.input_tokens_before;
  tokens_saved = 0;
}

-- the guard "never worse"
unfoldable pub guard : External → List ℕ → Json → OptimizationReport → Answer
unfolding report_reverted
guard x body value r =
    if leb r.input_tokens_before r.input_tokens_after
    then (body, report_reverted r)
    else (x.encode_json value, r)

unfoldable pub encode_changed : External → List ℕ → OptimizationReport → Json × Bool → Answer
unfolding guard report_rewritten
encode_changed x body r (value, false) = (body, r)
encode_changed x body r (value, true) =
    guard x body value (report_rewritten (estimate_tokens (body_for_estimate x value)) r)

unfoldable pub write_messages : External → List ℕ → Json → Progress → Answer
unfolding encode_changed drop_empty_tools from_list set
write_messages x body value p =
    encode_changed x body p.report
      (drop_empty_tools (set "messages" (array (from_list p.messages)) value) p.changed)

-- what follows the passes over the messages
unfoldable pub after_passes : External → List ℕ → TokenSaverConfig → Json → Progress → Answer
unfolding write_messages enforce_budget
after_passes x body config value p =
    if none_yet p.messages
    then (body, default_report)
    else write_messages x body value (enforce_budget config.max_input_tokens p)

unfoldable pub optimize_messages :
    External → List ℕ → TokenSaverConfig → Json → Option (List Json) → Answer
unfolding after_passes rewrite_messages
optimize_messages x body config value none = (body, default_report)
optimize_messages x body config value (some messages) =
    let before = estimate_tokens (body_for_estimate x value) in
    after_passes x body config value
      (rewrite_messages x config messages (record default_report { input_tokens_before = before }))

unfoldable pub optimize_value : External → List ℕ → TokenSaverConfig → Option Json → Answer
unfolding optimize_messages array_of get
optimize_value x body config none = (body, default_report)
optimize_value x body config (some value) =
    optimize_messages x body config value (array_of (get "messages" value))

unfoldable pub optimize_prompt : External → List ℕ → TokenSaverConfig → Answer
unfolding optimize_value
optimize_prompt x body config =
    if config.enabled
    then optimize_value x body config (x.parse_json body)
    else (body, default_report)
