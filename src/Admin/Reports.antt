-- ===== src/Admin/Reports.antt =====
-- crates/central/src/admin.rs: the reports on the audit log, the token saver, usage and quotas.
pub mod Totals
pub mod Balance
use mathlib.Core.Option as Opt
use oidc_agent_compat.Prelude.{
  ℕ, zero, suc, min, String, ◌==◌, Bool, true, false, ◌&&◌, ◌||◌, not, Option, none, some, List, [],
  ◌∷◌, map, select, sort_by, ltb, if◌then◌else◌,
}
use oidc_agent_compat.Prelude.Int.{ℤ, pos, ◌+ℤ◌}
use oidc_agent_compat.Prelude.Text.{lt_text}
use oidc_agent_compat.Error.{database}
use oidc_agent_compat.Entity.{AuditLog, GroupPolicy, UsageCounter}
use oidc_agent_compat.External.{External}
use oidc_agent_compat.World.{pure, ◌>>=◌, map_err, query}
use oidc_agent_compat.Policy.Store.{list_policies, resolve_policy}
use oidc_agent_compat.Usage.{get_usage, get_all_usage}
use oidc_agent_compat.Admin.{Handler, internal_error}

pub record AuditQuery : Type 0 where
  pub subject : Option String
  pub limit : Option ℕ
  pub offset : Option ℕ

module _ {A : Type 0} where
  -- `OFFSET` and `LIMIT`
  unfoldable pub skip_rows : ℕ → List A → List A
  skip_rows zero rows = rows
  skip_rows (suc n) [] = []
  skip_rows (suc n) (a ∷ rows) = skip_rows n rows

  unfoldable pub limit_rows : ℕ → List A → List A
  limit_rows zero rows = []
  limit_rows (suc n) [] = []
  limit_rows (suc n) (a ∷ rows) = a ∷ limit_rows n rows

abbrev pub is_by : Option String → AuditLog → Bool
is_by none row = true
is_by (some subject) row = row.entry.user_subject == subject

-- `order_by_desc(CreatedAt).order_by_desc(Id)`
abbrev pub is_older : AuditLog → AuditLog → Bool
is_older a b =
    ltb a.created_at b.created_at || (not (ltb b.created_at a.created_at) && lt_text a.id b.id)

-- The rows; the answer is their rendering as JSON, without the device and what is of MCP.
unfoldable pub query_audit : AuditQuery → Handler (List AuditLog)
unfolding skip_rows limit_rows
query_audit params =
    let limit = min (Opt.get_or params.limit 100) 1000 in
    map_err internal_error (
      query "query audit" (λ w. limit_rows limit (
        skip_rows (Opt.get_or params.offset 0)
          (sort_by is_older (select (is_by params.subject) w.audit_log)))))

pub record TokenSaverGroupSummary : Type 0 where
  pub group : String
  pub enabled : Bool
  pub max_input_tokens : Option ℤ
  pub requests_optimized : ℤ
  pub tokens_saved : ℤ
  pub messages_dropped : ℤ

pub record TokenSaverSummaryResponse : Type 0 where
  pub groups : List TokenSaverGroupSummary
  pub total_requests_optimized : ℤ
  pub total_tokens_saved : ℤ
  pub total_messages_dropped : ℤ

abbrev pub fresh_row : String → Bool → Option ℤ → TokenSaverGroupSummary
fresh_row group enabled max_input_tokens = record {
  group = group;
  enabled = enabled;
  max_input_tokens = max_input_tokens;
  requests_optimized = pos 0;
  tokens_saved = pos 0;
  messages_dropped = pos 0;
}

-- `entry(group).or_insert_with(…)`, and a change of the row
unfoldable pub change_row :
    TokenSaverGroupSummary
    → (TokenSaverGroupSummary → TokenSaverGroupSummary)
    → List TokenSaverGroupSummary
    → List TokenSaverGroupSummary
change_row fresh change [] = change fresh ∷ []
change_row fresh change (row ∷ rows) =
    let later = change_row fresh change rows in
    if row.group == fresh.group then change row ∷ rows else row ∷ later

abbrev pub or_none : Option ℤ → ℤ
or_none none = pos 0
or_none (some n) = n

-- the first of the groups, or "unknown"
abbrev pub first_or_unknown : List String → String
first_or_unknown [] = "unknown"
first_or_unknown (g ∷ groups) = g

unfoldable pub group_of : External → Option String → String
group_of x none = "unknown"
group_of x (some json) = first_or_unknown (Opt.get_or (x.parse_strings json) [])

abbrev pub add_entry : AuditLog → TokenSaverGroupSummary → TokenSaverGroupSummary
add_entry e row = record row {
  requests_optimized = row.requests_optimized +ℤ pos 1;
  tokens_saved = row.tokens_saved +ℤ or_none e.entry.tokens_saved;
  messages_dropped = row.messages_dropped +ℤ or_none e.entry.messages_dropped;
}

-- the loop over the entries
unfoldable pub summarize :
    External → List AuditLog → TokenSaverSummaryResponse → TokenSaverSummaryResponse
unfolding change_row group_of
summarize x [] summary = summary
summarize x (e ∷ entries) summary = summarize x entries (record {
  groups =
      change_row (fresh_row (group_of x e.entry.groups) false none) (add_entry e) summary.groups;
  total_requests_optimized = summary.total_requests_optimized +ℤ pos 1;
  total_tokens_saved = summary.total_tokens_saved +ℤ or_none e.entry.tokens_saved;
  total_messages_dropped = summary.total_messages_dropped +ℤ or_none e.entry.messages_dropped;
})

-- the loop over the policies
unfoldable pub overlay :
    List GroupPolicy → List TokenSaverGroupSummary → List TokenSaverGroupSummary
unfolding change_row
overlay [] rows = rows
overlay (p ∷ policies) rows = overlay policies (
    change_row (fresh_row p.group_name p.token_saver_enabled p.max_input_tokens)
      (λ row. record row { enabled = p.token_saver_enabled; max_input_tokens = p.max_input_tokens })
      rows)

abbrev pub was_applied : AuditLog → Bool
was_applied e = elim e.entry.token_saver_applied [ none ↦ false | some b ↦ b ]

abbrev pub empty_summary : TokenSaverSummaryResponse
empty_summary = record {
  groups = [];
  total_requests_optimized = pos 0;
  total_tokens_saved = pos 0;
  total_messages_dropped = pos 0;
}

unfoldable pub query_token_saver_summary : External → Handler TokenSaverSummaryResponse
unfolding summarize overlay
query_token_saver_summary x = do
  policies ← map_err internal_error list_policies
  entries ←
      map_err internal_error (query "query saver summary" (λ w. select was_applied w.audit_log))
  let summary = summarize x entries empty_summary
  pure (record summary {
    groups =
        sort_by
          (λ (a : TokenSaverGroupSummary) (b : TokenSaverGroupSummary). lt_text b.group a.group)
          (overlay policies summary.groups);
  })

pub record UsageResponse : Type 0 where
  pub user_subject : String
  pub period_date : ℕ
  pub request_count : ℤ
  pub token_count : ℤ
  pub cost_usd : ℕ

unfoldable pub usage_response : UsageCounter → UsageResponse
usage_response u = record {
  user_subject = u.user_subject;
  period_date = u.period_date;
  request_count = u.request_count;
  token_count = u.token_count;
  cost_usd = u.cost_usd;
}

abbrev pub listed_usage : Option UsageCounter → List UsageResponse
listed_usage none = []
listed_usage (some u) = usage_response u ∷ []

unfoldable pub query_usage : Option String → Handler (List UsageResponse)
unfolding usage_response
query_usage (some subject) = do
  usage ← map_err internal_error (get_usage subject)
  pure (listed_usage usage)
query_usage none = do all ← map_err internal_error get_all_usage; pure (map usage_response all)

pub record QuotaResponse : Type 0 where
  pub user_subject : String
  pub groups : Option String
  pub daily_request_quota : Option ℤ
  pub daily_token_quota : Option ℤ
  pub request_count : ℤ
  pub token_count : ℤ
  pub cost_usd : ℕ

abbrev pub snapshot_groups : Option UsageCounter → Option String
snapshot_groups none = none
snapshot_groups (some u) = u.group_name

unfoldable pub parsed_groups : External → Option String → List String
parsed_groups x none = []
parsed_groups x (some json) = Opt.get_or (x.parse_strings json) []

abbrev pub counted_in : (UsageCounter → ℤ) → Option UsageCounter → ℤ
counted_in f none = pos 0
counted_in f (some u) = f u

unfoldable pub get_quota : External → String → Handler QuotaResponse
unfolding parsed_groups
get_quota x subject = do
  usage ← map_err internal_error (get_usage subject)
  policy ← map_err internal_error (resolve_policy x (parsed_groups x (snapshot_groups usage)))
  pure (record {
    user_subject = subject;
    groups = snapshot_groups usage;
    daily_request_quota = policy.daily_request_quota;
    daily_token_quota = policy.daily_token_quota;
    request_count = counted_in (λ u. u.request_count) usage;
    token_count = counted_in (λ u. u.token_count) usage;
    cost_usd = elim usage [ none ↦ 0 | some u ↦ u.cost_usd ];
  })
