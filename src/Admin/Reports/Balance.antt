-- ===== src/Admin/Reports/Balance.antt =====
-- The token-saver summary of crates/central/src/admin.rs adds up.
use oidc_agent_compat.Prelude.{
  String, ◌≡◌, refl, sym, ◌∙◌, ◌⊎◌, inl, inr, List, [], ◌∷◌, select, Option, none, some,
}
use oidc_agent_compat.Prelude.Int.{ℤ, pos, ◌+ℤ◌}
use oidc_agent_compat.Error.{ok, err}
use oidc_agent_compat.Entity.{AuditLog, GroupPolicy}
use oidc_agent_compat.External.{External}
use oidc_agent_compat.World.{World, query, execute, map_err, ◌>>=◌}
use oidc_agent_compat.World.Cases.{with_faults}
use oidc_agent_compat.Policy.Store.{list_policies}
use oidc_agent_compat.Admin.{HandlerError}
use oidc_agent_compat.Admin.Reports.{
  TokenSaverSummaryResponse, empty_summary, summarize, or_none, was_applied,
  query_token_saver_summary,
}
use oidc_agent_compat.Admin.Reports.Totals.{
  sum_of, sum_over, +ℤ_comm, +ℤ_zero, counted, summarize-counts, summary_of, summary_of-column,
}

-- the amounts of an entry
abbrev pub one : AuditLog → ℤ
one e = pos 1

abbrev pub saved : AuditLog → ℤ
saved e = or_none e.entry.tokens_saved

abbrev pub dropped : AuditLog → ℤ
dropped e = or_none e.entry.messages_dropped

-- Each total is the sum of its column, and the sum of what the entries have.
pub record Balances (entries : List AuditLog) (s : TokenSaverSummaryResponse) : Type 0 where
  pub requests : sum_of (λ row. row.requests_optimized) s.groups ≡ s.total_requests_optimized
  pub tokens : sum_of (λ row. row.tokens_saved) s.groups ≡ s.total_tokens_saved
  pub messages : sum_of (λ row. row.messages_dropped) s.groups ≡ s.total_messages_dropped
  pub counted_requests : s.total_requests_optimized ≡ sum_over one entries
  pub counted_tokens : s.total_tokens_saved ≡ sum_over saved entries
  pub counted_messages : s.total_messages_dropped ≡ sum_over dropped entries

module _ (x : External) (policies : List GroupPolicy) (entries : List AuditLog) where
  summary_of-total :
      (g : TokenSaverSummaryResponse → ℤ) (amount : AuditLog → ℤ)
      → ((e : AuditLog) (s : TokenSaverSummaryResponse) → g (counted x e s) ≡ g s +ℤ amount e)
      → g empty_summary ≡ pos 0
      → g (summarize x entries empty_summary) ≡ sum_over amount entries
  summary_of-total g amount adds zero =
      summarize-counts x amount g adds entries empty_summary
      ∙ +ℤ_comm (g empty_summary) (sum_over amount entries)
      ∙ rw zero (+ℤ_zero (sum_over amount entries))

  summary_of-Balances : Balances entries (summary_of x policies entries)
  summary_of-Balances =
      let requests_total =
        summary_of-total (λ s. s.total_requests_optimized) one (λ e s. refl) refl in
      let tokens_total = summary_of-total (λ s. s.total_tokens_saved) saved (λ e s. refl) refl in
      let messages_total =
        summary_of-total (λ s. s.total_messages_dropped) dropped (λ e s. refl) refl in
      record {
        requests =
            summary_of-column x policies entries (λ row. row.requests_optimized) one
              (λ group b cap. refl) (λ row b cap. refl) (λ e row. refl)
            ∙ sym requests_total;
        tokens =
            summary_of-column x policies entries (λ row. row.tokens_saved) saved
              (λ group b cap. refl) (λ row b cap. refl) (λ e row. refl)
            ∙ sym tokens_total;
        messages =
            summary_of-column x policies entries (λ row. row.messages_dropped) dropped
              (λ group b cap. refl) (λ row b cap. refl) (λ e row. refl)
            ∙ sym messages_total;
        counted_requests = requests_total;
        counted_tokens = tokens_total;
        counted_messages = messages_total;
      }

module _ (x : External) where
  summary-Balances :
      (w : World) (faults : List (Option String))
      → let (r, v) = query_token_saver_summary x (with_faults w faults) in
        ((e : HandlerError) × (r ≡ err e))
        ⊎ ((s : TokenSaverSummaryResponse) × (r ≡ ok s)
            × Balances (select was_applied w.audit_log) s)
  unfolding query_token_saver_summary list_policies query execute map_err ◌>>=◌
  summary-Balances w [] = inr (_, refl, summary_of-Balances x w.group_policies _)
  summary-Balances w (some m ∷ fs) = inl (_, refl)
  summary-Balances w (none ∷ []) = inr (_, refl, summary_of-Balances x w.group_policies _)
  summary-Balances w (none ∷ some m ∷ fs) = inl (_, refl)
  summary-Balances w (none ∷ none ∷ fs) = inr (_, refl, summary_of-Balances x w.group_policies _)

  -- The report on the token saver is an error, or its totals are both the sums of the columns of its
  -- rows, also of those that a policy adds, and the sums over the audit entries to which the token
  -- saver was applied: their number, the tokens that they saved and the messages that they dropped.
  pub query_token_saver_summary-Balances :
      (w : World)
      → let (r, v) = query_token_saver_summary x w in
        ((e : HandlerError) × (r ≡ err e))
        ⊎ ((s : TokenSaverSummaryResponse) × (r ≡ ok s)
            × Balances (select was_applied w.audit_log) s)
  query_token_saver_summary-Balances w = summary-Balances w w.faults
