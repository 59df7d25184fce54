-- ===== src/Tests/Policies.antt =====
-- The laws of crates/central/src/policy.rs, usage.rs and device_store.rs at concrete rows.
use oidc_agent_compat.Prelude.{
  some, ◌≡◌, refl, ◌⊎◌, inl, inr, Bool-cases, true, none, List, [], ◌∷◌, map, any, arith, ◌==◌,
  eq_iff, ◌&&◌,
}
use oidc_agent_compat.Prelude.Int.{pos, ◌≤ℤ◌, ◌+ℤ◌}
use oidc_agent_compat.Error.{ok}
use oidc_agent_compat.World.{◌>>=◌, query, write, execute, now_utc, new_v4}
use oidc_agent_compat.World.Cases.{with_faults}
use oidc_agent_compat.Policy.Merge.{is_model_allowed, resolve_rows, contains}
use oidc_agent_compat.Policy.Merge.Allow.{grants, model_allowed-eq-any}
use oidc_agent_compat.Policy.Merge.Limits.{IsMaximum, IsLeast, limits-resolve_rows}
use oidc_agent_compat.Policy.Store.{
  new_row, resolve_policy, upsert_policy_full, write_policy, get_policy,
}
use oidc_agent_compat.Policy.Store.Laws.{HasUniqueNames, resolve-upsert_policy_full}
use oidc_agent_compat.Policy.Mcp.{entry_of, resolve_mcp_tool_allowed}
use oidc_agent_compat.Policy.Mcp.Laws.{tool_allowed-eq-any}
use oidc_agent_compat.Usage.{try_reserve_request}
use oidc_agent_compat.Usage.Reserve.{requests, granted, try_reserve_request_lem}
use oidc_agent_compat.Usage.Count.{Attempt, attempt_all, attempt_all-le-quota}
use oidc_agent_compat.Entity.{GroupPolicy}
use oidc_agent_compat.Tests.Data.{parse, env, policy_row, eng_row, central, fields}

model_allowed_example :
    is_model_allowed (resolve_rows parse (eng_row ∷ [])) "gpt-4"
    ≡ any (λ r. grants parse r.allowed_models "gpt-4") (eng_row ∷ [])
model_allowed_example = model_allowed-eq-any parse eng_row [] "gpt-4"

-- a second group with quotas
abbrev qa_row : GroupPolicy
qa_row = policy_row "p3" "qa" none (some (pos 20)) (some (pos 3_000))

limits_example :
    let p = resolve_rows parse (eng_row ∷ qa_row ∷ []) in
    IsMaximum (map (λ r. r.daily_token_quota) (eng_row ∷ qa_row ∷ [])) p.daily_token_quota
    × IsMaximum (map (λ r. r.daily_request_quota) (eng_row ∷ qa_row ∷ [])) p.daily_request_quota
    × IsLeast (map (λ r. r.max_token_ttl_seconds) (eng_row ∷ qa_row ∷ [])) p.max_token_ttl_seconds
limits_example =
    limits-resolve_rows parse eng_row (qa_row ∷ []) (inr ((_, refl), ((_, refl), tt)))
      (inr ((_, refl), ((_, refl), tt)))

central-HasUniqueNames : HasUniqueNames central
central-HasUniqueNames g = elim (Bool-cases ("eng" == g)) [
  | inl e ↦ rw (← (eq_iff "eng" g).0 e) (omega arith)
  | inr other ↦ ground (arith, other)
]

resolve_example :
    (resolve_policy env ("ops" ∷ []) (with_faults (upsert_policy_full "ops" fields central).1 [])).0
    ≡ ok (resolve_rows parse (new_row "" "ops" fields 0 0 ∷ []))
unfolding upsert_policy_full get_policy write_policy query write execute ◌>>=◌ now_utc
resolve_example = resolve-upsert_policy_full env "ops" fields central central-HasUniqueNames refl

tool_allowed_example :
    (resolve_mcp_tool_allowed env ("eng" ∷ []) "files" "read" (with_faults central [])).0
    ≡ ok (
        any
          (λ r.
            contains ("eng" ∷ []) r.group_name
            && grants parse r.allowed_tools (entry_of "files" "read"))
          central.mcp_server_policies)
tool_allowed_example = tool_allowed-eq-any env ("eng" ∷ []) "files" "read" central

reserve_example :
    let (r, v) = try_reserve_request "ann" none (pos 10) central in
    (requests "ann" v ≡ pos 10) × (granted r ≡ true → requests "ann" v ≤ℤ pos 10)
unfolding try_reserve_request execute ◌>>=◌ new_v4
reserve_example = try_reserve_request_lem "ann" none (pos 10) central "ann"

abbrev ann_twice : List Attempt
ann_twice =
    record { user_subject = "ann"; groups = none; quota = pos 10 }
    ∷ record { user_subject = "bob"; groups = none; quota = pos 3 }
    ∷ record { user_subject = "ann"; groups = none; quota = pos 10 }
    ∷ []

quota_example :
    let (n, v) = attempt_all "ann" ann_twice central in
    (requests "ann" v ≡ pos 9 +ℤ pos n) × ((n ≡ 0) ⊎ (requests "ann" v ≤ℤ pos 10))
quota_example =
    attempt_all-le-quota "ann" (pos 10) ann_twice central (λ h. refl, (λ h. cc h, (λ h. refl, tt)))
