-- ===== src/Optimizer/Prompt/NeverWorse.antt =====
-- What crates/central/src/optimizer.rs may hand on in place of a request's body.
use oidc_agent_compat.Prelude.{
  ℕ, zero, suc, String, ltb, not, ◌&&◌, Option-cases, ◌-◌, ◌<◌, Bool, true, false, ◌≡◌, refl, ap,
  ◌⊎◌, inl, inr, Option, none, some, List, [], ◌∷◌, leb, arith, Bool-cases, select, discard,
}
use oidc_agent_compat.External.{External, Json, array}
use oidc_agent_compat.Policy.Merge.{TokenSaverConfig}
use oidc_agent_compat.Json.{get}
use oidc_agent_compat.Optimizer.{
  OptimizationReport, default_report, estimate_tokens, body_for_estimate, from_list, text_at,
}
use oidc_agent_compat.Optimizer.Messages.{
  Progress, none_yet, set, rewrite_messages, drop_repeated, push, judge, count_empty,
  count_duplicate, count_collapsed, collapse_messages, strip_messages, Verdict-cases,
  Stripped-cases, compare_stripped, count_only_codes, count_stripped, collapse_if, strip_if,
}
use oidc_agent_compat.Optimizer.Lines.{collapse_repeated_lines}
use oidc_agent_compat.Optimizer.Ansi.{strip_ansi_escapes}
use mathlib.Core.List.{reverse}
use oidc_agent_compat.Optimizer.Budget.{
  enforce_budget, trim_turns, reassemble, keep_newest, is_system, total_tokens,
}
use oidc_agent_compat.Optimizer.Prompt.{
  Answer, array_of, drop_empty_tools, report_rewritten, guard, encode_changed, write_messages,
  after_passes, optimize_messages, optimize_value, optimize_prompt,
}

-- the estimate of a body's text
abbrev pub estimate : External → Json → ℕ
estimate x value = estimate_tokens (body_for_estimate x value)

-- the body and the report of a request that is left as it came
abbrev pub IsUntouched : List ℕ → Answer → Type 0
IsUntouched body (out, report) = (out ≡ body) × (report.applied ≡ false) × (report.tokens_saved ≡ 0)

-- the body is the encoding of a value with a smaller estimate than `before`, and the report says so
abbrev pub IsSmaller : External → ℕ → Answer → Type 0
IsSmaller x before (out, report) =
    (value : Json) × (out ≡ x.encode_json value)
    × (report.applied ≡ true)
    × (report.input_tokens_before ≡ before)
    × (report.input_tokens_after ≡ estimate x value)
    × (estimate x value < before)
    × (report.tokens_saved ≡ before - estimate x value)

abbrev Starts : ℕ → OptimizationReport → Type 0
Starts before r = (r.applied ≡ false) × (r.tokens_saved ≡ 0) × (r.input_tokens_before ≡ before)

abbrev Fair : External → List ℕ → ℕ → Answer → Type 0
Fair x body before answer = IsUntouched body answer ⊎ IsSmaller x before answer

guard-Fair :
    (x : External) (body : List ℕ) (before : ℕ) (value : Json) (r : OptimizationReport)
    → Starts before r
    → Fair x body before (guard x body value (report_rewritten (estimate x value) r))
unfolding guard report_rewritten
guard-Fair x body before value r (h, k, b) =
    elim (Bool-cases (leb r.input_tokens_before (estimate x value))) [
      | inl e ↦ rw e (inl (refl, refl, refl))
      | inr e ↦
          rw e (inr (value, refl, refl, b, refl, ground arith, ap (λ n. n - estimate x value) b))
    ]

encode_changed-Fair :
    (x : External) (body : List ℕ) (before : ℕ) (r : OptimizationReport) (result : Json × Bool)
    → Starts before r
    → Fair x body before (encode_changed x body r result)
unfolding encode_changed
encode_changed-Fair x body before r (value, false) (h, k, b) = inl (refl, h, k)
encode_changed-Fair x body before r (value, true) h = guard-Fair x body before value r h

reassemble-Starts :
    (before : ℕ) (p : Progress) (kept : List Json) (result : ℕ × List Json × Bool)
    → Starts before p.report
    → Starts before (reassemble p kept result).report
unfolding reassemble
reassemble-Starts before p kept (sum, tail, changed) h = h

enforce_budget-Starts :
    (before : ℕ) (budget : Option ℕ) (p : Progress)
    → Starts before p.report
    → Starts before (enforce_budget budget p).report
unfolding enforce_budget trim_turns
enforce_budget-Starts before none p h = h
enforce_budget-Starts before (some budget) p h =
    elim (Bool-cases (ltb budget p.report.input_tokens_before && not (none_yet p.messages))) [
      | inl over ↦ rw over (
          reassemble-Starts before p (select is_system p.messages)
            (keep_newest budget (total_tokens (select is_system p.messages)) [] p.changed
              (reverse (discard is_system p.messages)))
            h)
      | inr fits ↦ rw fits h
    ]

drop_repeated-Starts :
    (before : ℕ) (x : External) (dedup : List String) (ms : List Json) (r : OptimizationReport)
    (changed : Bool)
    → Starts before r
    → Starts before (drop_repeated x dedup ms r changed).report
unfolding drop_repeated push
drop_repeated-Starts before x dedup [] r changed h = h
drop_repeated-Starts before x dedup (m ∷ ms) r changed h = elim (Verdict-cases (judge x dedup m)) [
  | inl e ↦ rw (drop_repeated, e) (drop_repeated-Starts before x dedup ms (count_empty r) true h)
  | inr (inl e) ↦
      rw (drop_repeated, e) (drop_repeated-Starts before x dedup ms (count_duplicate r) true h)
  | inr (inr e) ↦
      rw (drop_repeated, e) (drop_repeated-Starts before x (x.print_json m ∷ dedup) ms r changed h)
]

count_collapsed-Starts :
    (before n : ℕ) (r : OptimizationReport) → Starts before r → Starts before (count_collapsed n r)
count_collapsed-Starts before zero r h = h
count_collapsed-Starts before (suc n) r h = h

collapse_messages-Starts :
    (before : ℕ) (ms : List Json) (r : OptimizationReport) (changed : Bool)
    → Starts before r
    → Starts before (collapse_messages ms r changed).report
unfolding collapse_messages push
collapse_messages-Starts before [] r changed h = h
collapse_messages-Starts before (m ∷ ms) r changed h = elim (Option-cases (text_at "content" m)) [
  | inl e ↦ rw (collapse_messages, e) (collapse_messages-Starts before ms r changed h)
  | inr (content, e) ↦
      rw (collapse_messages, e)
        (collapse_messages-Starts before ms _ _
          (count_collapsed-Starts before (collapse_repeated_lines content).1 r h))
]

strip_messages-Starts :
    (before : ℕ) (ms : List Json) (r : OptimizationReport) (changed : Bool)
    → Starts before r
    → Starts before (strip_messages ms r changed).report
unfolding strip_messages push
strip_messages-Starts before [] r changed h = h
strip_messages-Starts before (m ∷ ms) r changed h = elim (Option-cases (text_at "content" m)) [
  | inl e ↦ rw (strip_messages, e) (strip_messages-Starts before ms r changed h)
  | inr (content, e) ↦
      rw (strip_messages, e)
        (elim (Stripped-cases (compare_stripped content (strip_ansi_escapes content))) [
          | inl s ↦ rw s (strip_messages-Starts before ms r changed h)
          | inr (inl s) ↦ rw s (strip_messages-Starts before ms (count_only_codes r) true h)
          | inr (inr s) ↦ rw s (strip_messages-Starts before ms (count_stripped r) true h)
        ])
]

collapse_if-Starts :
    (before : ℕ) (b : Bool) (p : Progress)
    → Starts before p.report
    → Starts before (collapse_if b p).report
unfolding collapse_if
collapse_if-Starts before true p h = collapse_messages-Starts before p.messages p.report p.changed h
collapse_if-Starts before false p h = h

strip_if-Starts :
    (before : ℕ) (b : Bool) (p : Progress)
    → Starts before p.report
    → Starts before (strip_if b p).report
unfolding strip_if
strip_if-Starts before true p h = strip_messages-Starts before p.messages p.report p.changed h
strip_if-Starts before false p h = h

write_messages-Fair :
    (x : External) (body : List ℕ) (before : ℕ) (value : Json) (p : Progress)
    → Starts before p.report
    → Fair x body before (write_messages x body value p)
unfolding write_messages
write_messages-Fair x body before value p h =
    encode_changed-Fair x body before p.report
      (drop_empty_tools (set "messages" (array (from_list p.messages)) value) p.changed) h

after_passes-Fair :
    (x : External) (body : List ℕ) (before : ℕ) (config : TokenSaverConfig) (value : Json)
    (p : Progress)
    → Starts before p.report
    → Fair x body before (after_passes x body config value p)
unfolding after_passes
after_passes-Fair x body before config value p h = elim (Bool-cases (none_yet p.messages)) [
  | inl e ↦ rw e (inl (refl, refl, refl))
  | inr e ↦ rw e (
      write_messages-Fair x body before value (enforce_budget config.max_input_tokens p)
        (enforce_budget-Starts before config.max_input_tokens p h))
]

-- the estimate of the request, if it is JSON
abbrev pub estimate_of : External → Option Json → ℕ
estimate_of x none = 0
estimate_of x (some value) = estimate x value

optimize_messages-Fair :
    (x : External) (body : List ℕ) (config : TokenSaverConfig) (value : Json)
    (found : Option (List Json))
    → Fair x body (estimate x value) (optimize_messages x body config value found)
unfolding optimize_messages rewrite_messages
optimize_messages-Fair x body config value none = inl (refl, refl, refl)
optimize_messages-Fair x body config value (some ms) =
    let before = estimate x value in
    let start : OptimizationReport = record default_report { input_tokens_before = before } in
    let first = drop_repeated x [] ms start false in
    after_passes-Fair x body before config value (rewrite_messages x config ms start) (
      strip_if-Starts before config.strip_ansi (collapse_if config.collapse_repeated_lines first) (
        collapse_if-Starts before config.collapse_repeated_lines first
          (drop_repeated-Starts before x [] ms start false (refl, refl, refl))))

optimize_value-Fair :
    (x : External) (body : List ℕ) (config : TokenSaverConfig) (value : Option Json)
    → Fair x body (estimate_of x value) (optimize_value x body config value)
unfolding optimize_value
optimize_value-Fair x body config none = inl (refl, refl, refl)
optimize_value-Fair x body config (some value) =
    optimize_messages-Fair x body config value (array_of (get "messages" value))

-- The optimizer either hands on the body as it came and reports no change and no savings, or it is
-- enabled and hands on the encoding of a value whose estimate is strictly below that of the request;
-- the report then shows both estimates and their difference.
pub optimize_prompt_never_worse :
    (x : External) (body : List ℕ) (config : TokenSaverConfig)
    → let answer = optimize_prompt x body config in
      IsUntouched body answer
      ⊎ ((config.enabled ≡ true) × IsSmaller x (estimate_of x (x.parse_json body)) answer)
unfolding optimize_prompt
optimize_prompt_never_worse x body config = elim (Bool-cases config.enabled) [
  | inl e ↦ rw e (elim (optimize_value-Fair x body config (x.parse_json body)) [
    | inl same ↦ inl same
    | inr smaller ↦ inr (refl, smaller)
  ])
  | inr e ↦ rw e (inl (refl, refl, refl))
]
