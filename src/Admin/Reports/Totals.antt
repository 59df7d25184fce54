-- ===== src/Admin/Reports/Totals.antt =====
-- The totals of the token-saver summary of crates/central/src/admin.rs.
use oidc_agent_compat.Prelude.{
  String, ◌==◌, ◌≡◌, refl, sym, ◌∙◌, ap, Bool, false, List, [], ◌∷◌, Bool-cases, inl, inr, arith,
  insert_by, sort_by, Option, none,
}
use oidc_agent_compat.Prelude.Int.{ℤ, pos, negsuc, ◌+ℤ◌}
use oidc_agent_compat.Entity.{AuditLog, GroupPolicy}
use oidc_agent_compat.External.{External}
use oidc_agent_compat.Prelude.Text.{lt_text}
use oidc_agent_compat.Admin.Reports.{
  TokenSaverGroupSummary, TokenSaverSummaryResponse, empty_summary, change_row, summarize, overlay,
  fresh_row, add_entry, or_none, group_of,
}

+ℤ_assoc : (a b c : ℤ) → (a +ℤ b) +ℤ c ≡ a +ℤ (b +ℤ c)
+ℤ_assoc (pos a) (pos b) (pos c) = ground arith
+ℤ_assoc (pos a) (pos b) (negsuc c) = ground arith
+ℤ_assoc (pos a) (negsuc b) (pos c) = ground arith
+ℤ_assoc (pos a) (negsuc b) (negsuc c) = ground arith
+ℤ_assoc (negsuc a) (pos b) (pos c) = ground arith
+ℤ_assoc (negsuc a) (pos b) (negsuc c) = ground arith
+ℤ_assoc (negsuc a) (negsuc b) (pos c) = ground arith
+ℤ_assoc (negsuc a) (negsuc b) (negsuc c) = ground arith

pub +ℤ_comm : (a b : ℤ) → a +ℤ b ≡ b +ℤ a
+ℤ_comm a b = ground arith

pub +ℤ_zero : (a : ℤ) → a +ℤ pos 0 ≡ a
+ℤ_zero (pos a) = ground arith
+ℤ_zero (negsuc a) = ground arith

-- the sum of a column
abbrev pub sum_of : (TokenSaverGroupSummary → ℤ) → List TokenSaverGroupSummary → ℤ
sum_of f [] = pos 0
sum_of f (row ∷ rows) = f row +ℤ sum_of f rows

abbrev pub sum_over : (AuditLog → ℤ) → List AuditLog → ℤ
sum_over f [] = pos 0
sum_over f (e ∷ entries) = f e +ℤ sum_over f entries

module _ (f : TokenSaverGroupSummary → ℤ) where
  swap_last : (a s d : ℤ) → (a +ℤ d) +ℤ s ≡ (a +ℤ s) +ℤ d
  swap_last a s d = +ℤ_assoc a d s ∙ ap (λ t. a +ℤ t) (+ℤ_comm d s) ∙ sym (+ℤ_assoc a s d)

  sum_of-change_row :
      (fresh : TokenSaverGroupSummary) (change : TokenSaverGroupSummary → TokenSaverGroupSummary)
      (d : ℤ) (rows : List TokenSaverGroupSummary)
      → f fresh ≡ pos 0
      → ((row : TokenSaverGroupSummary) → f (change row) ≡ f row +ℤ d)
      → sum_of f (change_row fresh change rows) ≡ sum_of f rows +ℤ d
  unfolding change_row
  sum_of-change_row fresh change d [] zero adds =
      +ℤ_zero (f (change fresh)) ∙ adds fresh ∙ ap (λ t. t +ℤ d) zero
  sum_of-change_row fresh change d (row ∷ rows) zero adds =
      let later = sum_of-change_row fresh change d rows zero adds in
      elim (Bool-cases (row.group == fresh.group)) [
        | inl same ↦
            rw same (ap (λ t. t +ℤ sum_of f rows) (adds row) ∙ swap_last (f row) (sum_of f rows) d)
        | inr other ↦
            rw other (ap (λ t. f row +ℤ t) later ∙ sym (+ℤ_assoc (f row) (sum_of f rows) d))
      ]

  sum_of-insert_by :
      (later : TokenSaverGroupSummary → TokenSaverGroupSummary → Bool)
      (row : TokenSaverGroupSummary) (rows : List TokenSaverGroupSummary)
      → sum_of f (insert_by later row rows) ≡ f row +ℤ sum_of f rows
  unfolding insert_by
  sum_of-insert_by later row [] = refl
  sum_of-insert_by later row (r ∷ rows) = elim (Bool-cases (later row r)) [
    | inl after ↦ rw after (
        ap (λ t. f r +ℤ t) (sum_of-insert_by later row rows)
        ∙ sym (+ℤ_assoc (f r) (f row) (sum_of f rows))
        ∙ ap (λ t. t +ℤ sum_of f rows) (+ℤ_comm (f r) (f row))
        ∙ +ℤ_assoc (f row) (f r) (sum_of f rows))
    | inr before ↦ rw before refl
  ]

  sum_of-sort_by :
      (later : TokenSaverGroupSummary → TokenSaverGroupSummary → Bool)
      (rows : List TokenSaverGroupSummary)
      → sum_of f (sort_by later rows) ≡ sum_of f rows
  unfolding sort_by
  sum_of-sort_by later [] = refl
  sum_of-sort_by later (row ∷ rows) =
      sum_of-insert_by later row (sort_by later rows)
      ∙ ap (λ t. f row +ℤ t) (sum_of-sort_by later rows)

-- the summary after one entry
abbrev pub counted : External → AuditLog → TokenSaverSummaryResponse → TokenSaverSummaryResponse
counted x e summary = record {
  groups =
      change_row (fresh_row (group_of x e.entry.groups) false none) (add_entry e) summary.groups;
  total_requests_optimized = summary.total_requests_optimized +ℤ pos 1;
  total_tokens_saved = summary.total_tokens_saved +ℤ or_none e.entry.tokens_saved;
  total_messages_dropped = summary.total_messages_dropped +ℤ or_none e.entry.messages_dropped;
}

module _ (x : External) (amount : AuditLog → ℤ) (g : TokenSaverSummaryResponse → ℤ)
    (adds : (e : AuditLog) (s : TokenSaverSummaryResponse)
      → g (counted x e s) ≡ g s +ℤ amount e) where
  pub summarize-counts :
      (entries : List AuditLog) (summary : TokenSaverSummaryResponse)
      → g (summarize x entries summary) ≡ g summary +ℤ sum_over amount entries
  unfolding summarize
  summarize-counts [] summary = sym (+ℤ_zero (g summary))
  summarize-counts (e ∷ entries) summary =
      summarize-counts entries (counted x e summary)
      ∙ ap (λ t. t +ℤ sum_over amount entries) (adds e summary)
      ∙ +ℤ_assoc (g summary) (amount e) (sum_over amount entries)

overlay-sum_of :
    (f : TokenSaverGroupSummary → ℤ)
    → ((group : String) (enabled : Bool) (cap : Option ℤ) → f (fresh_row group enabled cap) ≡ pos 0)
    → ((row : TokenSaverGroupSummary) (enabled : Bool) (cap : Option ℤ)
        → f (record row { enabled = enabled; max_input_tokens = cap }) ≡ f row)
    → (policies : List GroupPolicy) (rows : List TokenSaverGroupSummary)
    → sum_of f (overlay policies rows) ≡ sum_of f rows
unfolding overlay
overlay-sum_of f zero keeps [] rows = refl
overlay-sum_of f zero keeps (p ∷ policies) rows =
    overlay-sum_of f zero keeps policies _
    ∙ sum_of-change_row f (fresh_row p.group_name p.token_saver_enabled p.max_input_tokens)
        (λ row. record row {
          enabled = p.token_saver_enabled;
          max_input_tokens = p.max_input_tokens;
        })
        (pos 0) rows (zero p.group_name p.token_saver_enabled p.max_input_tokens)
        (λ row. keeps row p.token_saver_enabled p.max_input_tokens ∙ sym (+ℤ_zero (f row)))
    ∙ +ℤ_zero (sum_of f rows)

module _ (x : External) (policies : List GroupPolicy) (entries : List AuditLog) where
  -- the summary of the entries
  abbrev pub summary_of : TokenSaverSummaryResponse
  summary_of =
      let summary = summarize x entries empty_summary in
      record summary {
        groups =
            sort_by
              (λ (a : TokenSaverGroupSummary) (b : TokenSaverGroupSummary). lt_text b.group a.group)
              (overlay policies summary.groups);
      }

  -- a column and its total are both the sum over the entries
  module _ (f : TokenSaverGroupSummary → ℤ) (amount : AuditLog → ℤ)
      (zero : (group : String) (enabled : Bool) (cap : Option ℤ)
        → f (fresh_row group enabled cap) ≡ pos 0)
      (keeps : (row : TokenSaverGroupSummary) (enabled : Bool) (cap : Option ℤ)
        → f (record row { enabled = enabled; max_input_tokens = cap }) ≡ f row)
      (adds : (e : AuditLog) (row : TokenSaverGroupSummary)
        → f (add_entry e row) ≡ f row +ℤ amount e) where
    pub summary_of-column : sum_of f summary_of.groups ≡ sum_over amount entries
    summary_of-column =
        sum_of-sort_by f _ (overlay policies (summarize x entries empty_summary).groups)
        ∙ overlay-sum_of f zero keeps policies (summarize x entries empty_summary).groups
        ∙ summarize-counts x amount (λ s. sum_of f s.groups)
            (λ e s.
              sum_of-change_row f (fresh_row (group_of x e.entry.groups) false none) (add_entry e)
                (amount e) s.groups (zero _ _ _) (adds e))
            entries empty_summary
        ∙ +ℤ_comm (pos 0) (sum_over amount entries)
        ∙ +ℤ_zero (sum_over amount entries)
