-- ===== src/Proxy/Forward/Accounting.antt =====
-- crates/central/src/proxy/forward.rs: the audit entry and the counters of an answered request.
use mathlib.Core.Option as Opt
use oidc_agent_compat.Prelude.{
  ℕ, ◌+◌, String, Bool, Option, none, some, List, [], ◌∷◌, ltb, if◌then◌else◌,
}
use oidc_agent_compat.Prelude.Int.{pos}
use oidc_agent_compat.Error.{Error}
use oidc_agent_compat.Entity.{AuditEntry}
use oidc_agent_compat.External.{External}
use oidc_agent_compat.World.{Exec, pure, ◌>>◌, attempt}
use oidc_agent_compat.Audit.{record_entry}
use oidc_agent_compat.Optimizer.{OptimizationReport}
use oidc_agent_compat.Float.{Float}
use oidc_agent_compat.Pricing.{PriceTable, compute_cost, or_zero}
use oidc_agent_compat.Usage.{increment}
use oidc_agent_compat.Proxy.Http.{VerifiedRelayIdentity, PermissionDecision}
use oidc_agent_compat.Proxy.McpForward.{device_or_relay, subject_or_unknown, and_field}
use oidc_agent_compat.Proxy.Forward.{TokenUsage}

-- `elapsed_ms` is what `start.elapsed()` will give.
pub record AccountingContext : Type 0 where
  pub identity : Option VerifiedRelayIdentity
  pub decision : Option PermissionDecision
  pub path : String
  pub model : Option String
  pub provider_name : String
  pub status : ℕ
  pub elapsed_ms : ℕ
  pub saver_report : Option OptimizationReport

abbrev pub tag_if : ℕ → String → List String → List String
tag_if n tag tags = if ltb 0 n then tag ∷ tags else tags

unfoldable pub saver_reasons : OptimizationReport → List String
saver_reasons r = tag_if r.dup_messages_dropped "dedup" (
    tag_if r.budget_turns_dropped "budget_trim" (
      tag_if r.empty_messages_dropped "empty_removed" (
        tag_if r.collapsed_lines "rtk_collapse" (tag_if r.ansi_stripped_messages "ansi_strip" []))))

abbrev pub denial_reason : Option PermissionDecision → Option String
denial_reason none = none
denial_reason (some d) = d.reason

module _ (x : External) (f : Float) (prices : PriceTable) where
  unfoldable pub cost_of : AccountingContext → TokenUsage → ℕ
  unfolding compute_cost
  cost_of context usage =
      compute_cost f prices (Opt.get_or context.model "") usage.prompt usage.completion

  unfoldable pub outcome_entry : AccountingContext → TokenUsage → Bool → AuditEntry
  unfolding cost_of saver_reasons
  outcome_entry context usage stream = record {
    device_id = device_or_relay context.identity;
    user_subject = subject_or_unknown context.identity;
    model = context.model;
    backend = context.provider_name;
    status = context.status;
    latency_ms = context.elapsed_ms;
    stream = stream;
    prompt_tokens = usage.prompt;
    completion_tokens = usage.completion;
    total_tokens = usage.total;
    identity_id = and_field (λ i. i.identity_id) context.identity;
    email = and_field (λ i. i.email) context.identity;
    groups = and_field (λ i. i.groups) context.identity;
    endpoint = some context.path;
    request_id = and_field (λ i. i.request_id) context.identity;
    permission_decision = Opt.map (λ (d : PermissionDecision). d.decision) context.decision;
    denial_reason = denial_reason context.decision;
    cost_usd = some (cost_of context usage);
    token_saver_applied = Opt.map (λ (r : OptimizationReport). r.applied) context.saver_report;
    tokens_saved = Opt.map (λ (r : OptimizationReport). pos r.tokens_saved) context.saver_report;
    messages_dropped =
        Opt.map
          (λ (r : OptimizationReport).
            pos (r.dup_messages_dropped + r.budget_turns_dropped + r.empty_messages_dropped))
          context.saver_report;
    saver_reasons =
        Opt.map (λ (r : OptimizationReport). x.print_strings (saver_reasons r))
          context.saver_report;
    mcp_server = none;
    mcp_tool = none;
    mcp_method = none;
    mcp_args_preview = none;
  }

  -- Errors are logged. A request without an identity is not counted.
  unfoldable pub count_outcome :
      ℕ → TokenUsage → Option VerifiedRelayIdentity → Exec Error (Unit {0})
  count_outcome cost usage none = pure tt
  count_outcome cost usage (some identity) = do
    attempt {F = Error}
        (increment x identity.subject identity.groups (pos 1) (or_zero usage.total) cost)
    pure tt

  unfoldable pub record_request_outcome :
      AccountingContext → TokenUsage → Bool → Exec Error (Unit {0})
  unfolding outcome_entry cost_of count_outcome
  record_request_outcome context usage stream = do
    attempt {F = Error} (record_entry (outcome_entry context usage stream))
    count_outcome (cost_of context usage) usage context.identity
