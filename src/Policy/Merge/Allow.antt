-- ===== src/Policy/Merge/Allow.antt =====
-- The allowlists of the merged policy, for the loop of `resolve_policy` in
-- crates/central/src/policy.rs.
use oidc_agent_compat.Prelude.{
  String, ◌≡◌, refl, Bool, true, false, ◌||◌, Option, none, some, List, [], ◌∷◌, any, any-append,
  arith, ◌==◌,
}
use oidc_agent_compat.Entity.{GroupPolicy}
use oidc_agent_compat.Policy.Merge.{
  Merged, nothing_merged, contains, extend, permits, is_model_allowed, is_endpoint_allowed,
  merge_allowlist, merge_row, merge_rows, finish, resolve_rows,
}

abbrev pub holds : Option (List String) → String → Bool
holds none s = false
holds (some set) s = contains set s

-- A column grants a text if it is NULL, or a JSON array that holds the text.
abbrev pub grants : (String → Option (List String)) → Option String → String → Bool
grants parse none s = true
grants parse (some json) s = holds (parse json) s

pub contains-extend :
    (set : List String) (more : Option (List String)) (s : String)
    → contains (extend set more) s ≡ (contains set s || holds more s)
contains-extend set none s = ground arith
contains-extend set (some more) s = any-append (λ x. x == s) set more

module _ (parse : String → Option (List String)) where
  permits-merge_allowlist :
      (column : Option String) (acc : Option (List String)) (s : String)
      → permits (merge_allowlist parse column acc) s ≡ (permits acc s || grants parse column s)
  unfolding merge_allowlist
  permits-merge_allowlist none none s = refl
  permits-merge_allowlist none (some set) s = ground arith
  permits-merge_allowlist (some json) none s = refl
  permits-merge_allowlist (some json) (some set) s = contains-extend set (parse json) s

  models-merge_rows :
      (acc : Merged) (rows : List GroupPolicy) (s : String)
      → permits (merge_rows parse acc rows).allowed_models s
        ≡ (permits acc.allowed_models s || any (λ r. grants parse r.allowed_models s) rows)
  unfolding merge_rows merge_row
  models-merge_rows acc [] s = ground arith
  models-merge_rows acc (row ∷ rows) s = ground (
    arith,
    models-merge_rows (merge_row parse acc row) rows s,
    permits-merge_allowlist row.allowed_models acc.allowed_models s,
  )

  endpoints-merge_rows :
      (acc : Merged) (rows : List GroupPolicy) (s : String)
      → permits (merge_rows parse acc rows).allowed_endpoints s
        ≡ (permits acc.allowed_endpoints s || any (λ r. grants parse r.allowed_endpoints s) rows)
  unfolding merge_rows merge_row
  endpoints-merge_rows acc [] s = ground arith
  endpoints-merge_rows acc (row ∷ rows) s = ground (
    arith,
    endpoints-merge_rows (merge_row parse acc row) rows s,
    permits-merge_allowlist row.allowed_endpoints acc.allowed_endpoints s,
  )

  -- Where at least one row was found, the merged policy allows a model exactly when some row grants
  -- it: a row whose list is NULL grants every model, a row whose list does not parse grants none.
  pub model_allowed-eq-any :
      (row : GroupPolicy) (rows : List GroupPolicy) (model : String)
      → is_model_allowed (resolve_rows parse (row ∷ rows)) model
        ≡ any (λ r. grants parse r.allowed_models model) (row ∷ rows)
  unfolding is_model_allowed resolve_rows finish
  model_allowed-eq-any row rows model = models-merge_rows nothing_merged (row ∷ rows) model

  -- Where at least one row was found, the merged policy allows an endpoint exactly when some row
  -- grants it, by a NULL list or by one that parses and holds it.
  pub endpoint_allowed-eq-any :
      (row : GroupPolicy) (rows : List GroupPolicy) (endpoint : String)
      → is_endpoint_allowed (resolve_rows parse (row ∷ rows)) endpoint
        ≡ any (λ r. grants parse r.allowed_endpoints endpoint) (row ∷ rows)
  unfolding is_endpoint_allowed resolve_rows finish
  endpoint_allowed-eq-any row rows endpoint =
      endpoints-merge_rows nothing_merged (row ∷ rows) endpoint
