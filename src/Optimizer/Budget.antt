-- ===== src/Optimizer/Budget.antt =====
-- crates/central/src/optimizer.rs: the pass that enforces the budget of tokens.
pub mod Turns
use mathlib.Core.List.{reverse}
use oidc_agent_compat.Prelude.{
  ℕ, ◌+◌, ◌-◌, String, ◌==◌, Bool, true, false, ◌||◌, Option, none, some, List, [], ◌∷◌, ◌++◌,
  length, select, discard, leb, ltb, ◌&&◌, not, if◌then◌else◌,
}
use oidc_agent_compat.External.{Json}
use oidc_agent_compat.Optimizer.{OptimizationReport, estimate_tokens, text_at}
use oidc_agent_compat.Optimizer.Messages.{Progress, none_yet}

abbrev pub text_or_empty : Option String → String
text_or_empty none = ""
text_or_empty (some s) = s

-- the estimate of a message's content
unfoldable pub content_tokens : Json → ℕ
content_tokens message = estimate_tokens (text_or_empty (text_at "content" message))

unfoldable pub total_tokens : List Json → ℕ
total_tokens [] = 0
total_tokens (m ∷ ms) = content_tokens m + total_tokens ms

abbrev pub is_text : String → Option String → Bool
is_text s none = false
is_text s (some t) = t == s

-- `msg.get("role").and_then(as_str) == Some("system")`
unfoldable pub is_system : Json → Bool
is_system message = is_text "system" (text_at "role" message)

-- The loop over the droppable messages, newest first: the sum, `tail` reversed as the code does
-- after the loop, and `changed`.
unfoldable pub keep_newest : ℕ → ℕ → List Json → Bool → List Json → ℕ × List Json × Bool
unfolding content_tokens
keep_newest budget sum tail changed [] = (sum, tail, changed)
keep_newest budget sum tail changed (message ∷ older) =
    let tokens = content_tokens message in
    elim (leb (sum + tokens) budget || none_yet tail) [
      | true ↦ keep_newest budget (sum + tokens) (message ∷ tail) changed older
      | false ↦ keep_newest budget sum tail true older
    ]

-- the assignments after the loop
unfoldable pub reassemble : Progress → List Json → ℕ × List Json × Bool → Progress
reassemble p always_keep (sum, tail, changed) =
    let keep = always_keep ++ tail in
    record {
      messages = keep;
      report = record p.report {
        budget_turns_dropped = length p.messages - length keep;
        input_tokens_after = sum;
      };
      changed = changed || (not (none_yet keep) && ltb (length keep) (length p.messages));
    }

unfoldable pub trim_turns : ℕ → Progress → Progress
unfolding is_system total_tokens keep_newest reassemble
trim_turns budget p =
    let always_keep = select is_system p.messages in
    let droppable = discard is_system p.messages in
    reassemble p always_keep
      (keep_newest budget (total_tokens always_keep) [] p.changed (reverse droppable))

-- pass 2
unfoldable pub enforce_budget : Option ℕ → Progress → Progress
unfolding trim_turns
enforce_budget none p = p
enforce_budget (some budget) p =
    if ltb budget p.report.input_tokens_before && not (none_yet p.messages)
    then trim_turns budget p
    else p
