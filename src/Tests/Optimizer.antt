-- ===== src/Tests/Optimizer.antt =====
-- The laws of crates/central/src/optimizer.rs at concrete requests.
use mathlib.Core.List.{Sublist}
use Prim.Native.String.{len}
use oidc_agent_compat.Prelude.{
  ℕ, ◌+◌, ◌≤◌, String, true, false, ◌||◌, ◌≡◌, refl, ◌⊎◌, none, some, List, [], ◌∷◌, All, length,
}
use oidc_agent_compat.External.{External, Json, string, array, object, field, end, cons, nil, Items}
use oidc_agent_compat.Policy.Merge.{TokenSaverConfig}
use oidc_agent_compat.Optimizer.{
  default_report, to_list, text_at, estimate_tokens, body_for_estimate,
}
use oidc_agent_compat.Prelude.Text.{is_blank}
use oidc_agent_compat.Optimizer.Ansi.{is_final, strip_ansi_escapes}
use oidc_agent_compat.Optimizer.Ansi.Segments.{
  visible, sequence, render, visible_text, strip-render, is_proper, has_no_final,
}
use oidc_agent_compat.Optimizer.Lines.{collapse_repeated_lines}
use oidc_agent_compat.Optimizer.Lines.Folds.{Collapsed, collapse_repeated_lines_lem}
use oidc_agent_compat.Optimizer.Messages.{Progress, is_empty_content, drop_repeated}
use oidc_agent_compat.Optimizer.Messages.Kept.{is_tidy, has_text, drop_repeated_lem}
use oidc_agent_compat.Optimizer.Prompt.{optimize_prompt}
use oidc_agent_compat.Optimizer.Prompt.NeverWorse.{
  IsUntouched, IsSmaller, estimate_of, optimize_prompt_never_worse,
}
use oidc_agent_compat.Tests.Data.{env}

abbrev message : String → String → Json
message role content = object (field "role" (string role) (field "content" (string content) end))

abbrev chat : Items → Json
chat messages = object (field "model" (string "gpt-4") (field "messages" (array messages) end))

abbrev turns : Items
turns = cons (message "system" "be brief") (
    cons (message "user" "hello")
      (cons (message "assistant" "  ") (cons (message "user" "hello") nil)))

abbrev chat_env : External
chat_env = record env { parse_json = λ bytes. some (chat turns) }

abbrev config : TokenSaverConfig
config = record {
  enabled = true;
  max_input_tokens = none;
  collapse_repeated_lines = true;
  strip_ansi = true;
}

abbrev body : List ℕ
body = 123 ∷ 125 ∷ []

never_worse_example :
    let answer = optimize_prompt chat_env body config in
    IsUntouched body answer
    ⊎ ((config.enabled ≡ true)
        × IsSmaller chat_env (estimate_of chat_env (some (chat turns))) answer)
never_worse_example = optimize_prompt_never_worse chat_env body config

-- the second message and the blank one are dropped
chat_optimized :
    let (out, report) = optimize_prompt chat_env body config in
    (report.applied ≡ true)
    × (report.dup_messages_dropped ≡ 1)
    × (report.empty_messages_dropped ≡ 1)
unfolding optimize_prompt text_at is_blank collapse_repeated_lines strip_ansi_escapes
    estimate_tokens body_for_estimate
chat_optimized = (refl, refl, refl)

kept_example :
    let p = drop_repeated env [] (to_list turns) default_report false in
    (is_tidy env none p.messages ≡ true)
    × All
        (λ m. (is_empty_content m || has_text env (env.print_json m) p.messages) ≡ true)
        (to_list turns)
    × Sublist p.messages (to_list turns)
    × (length p.messages + (p.report.dup_messages_dropped + p.report.empty_messages_dropped)
        ≡ length (to_list turns)
          + (default_report.dup_messages_dropped + default_report.empty_messages_dropped))
kept_example = drop_repeated_lem env (to_list turns) default_report false

abbrev long_chat : Progress
long_chat = record {
  messages =
      message "system" "be brief" ∷ message "user" "a long question" ∷ message "user" "hello" ∷ [];
  report = default_report;
  changed = false;
}

strip_example :
    strip_ansi_escapes
      (render (sequence "1;31" "m" ∷ visible "h" ∷ visible "i" ∷ sequence "0" "m" ∷ []))
    ≡ "hi"
unfolding visible_text is_proper has_no_final is_final
strip_example =
    strip-render (sequence "1;31" "m" ∷ visible "h" ∷ visible "i" ∷ sequence "0" "m" ∷ [])
      (refl, (refl, (refl, (refl, tt))))

collapse_example :
    let (out, removed) =
      collapse_repeated_lines "error: no route\nerror: no route\nerror: no route\nend" in
    Collapsed "error: no route\nerror: no route\nerror: no route\nend" out removed
    × (len out ≤ len "error: no route\nerror: no route\nerror: no route\nend")
collapse_example =
    collapse_repeated_lines_lem "error: no route\nerror: no route\nerror: no route\nend"

log_collapsed :
    collapse_repeated_lines "error: no route\nerror: no route\nerror: no route\nend"
    ≡ ("[×3] error: no route\nend", 2)
unfolding collapse_repeated_lines
log_collapsed = refl

-- The pass is not idempotent: what is left round a sequence may form another.
strip_twice : strip_ansi_escapes "\u{1b}\u{1b}[0m[1mx" ≡ "\u{1b}[1mx"
unfolding strip_ansi_escapes
strip_twice = refl

-- An introducer without a final byte takes the following text with it.
strip_unended : strip_ansi_escapes "a\u{1b}[ 12 34" ≡ "a"
unfolding strip_ansi_escapes
strip_unended = refl
