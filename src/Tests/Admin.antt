-- ===== src/Tests/Admin.antt =====
-- The laws of crates/central/src/admin.rs at concrete inputs.
use oidc_agent_compat.Prelude.{String, none, select, ◌⊎◌, ◌≡◌}
use oidc_agent_compat.Error.{Result, ok, err}
use oidc_agent_compat.World.{pure}
use oidc_agent_compat.Proxy.Http.{other, Response}
use oidc_agent_compat.Admin.Policies.{UpsertPolicyRequest}
use oidc_agent_compat.Admin.Auth.{AdminNext, admin_auth_middleware}
use oidc_agent_compat.Admin.Auth.Admitted.{Guarded, admin_auth_middleware_lem}
use oidc_agent_compat.Admin.Routes.{Change, AdminResponse, post_revoke, answer_change, serve_change}
use oidc_agent_compat.Admin.Routes.Attributed.{Attributed, serve_change-Attributed}
use oidc_agent_compat.Admin.Routes.Audited.{Outcome}
use oidc_agent_compat.Admin.Routes.Audited.Changes.{action_of, target_of, answer_change-Audits}
use oidc_agent_compat.Admin.{HandlerError}
use oidc_agent_compat.Admin.Reports.{
  TokenSaverSummaryResponse, was_applied, query_token_saver_summary,
}
use oidc_agent_compat.Admin.Reports.Balance.{Balances, query_token_saver_summary-Balances}
use oidc_agent_compat.Tests.Data.{env, central, chat, ann_device}

abbrev digest_of : String → String
digest_of s = s

abbrev printed : UpsertPolicyRequest → String
printed body = "{}"

abbrev of_ann : Change
of_ann = post_revoke ann_device.cert_fingerprint

answer_change_example :
    Outcome "root"
      (action_of of_ann)
      (target_of of_ann)
      central
      (answer_change env digest_of printed "root" of_ann central)
answer_change_example = answer_change-Audits env digest_of printed "root" of_ann central

-- the handlers, which answer with the subject that they are told
abbrev handlers : AdminNext
handlers identity request =
    pure (record { status = 200; retry_after = none; body = other identity.subject })

admin_example :
    Guarded env "eng" handlers
      (chat none)
      central
      (admin_auth_middleware env "eng" handlers (chat none) central)
admin_example = admin_auth_middleware_lem env "eng" handlers (chat none) central

summary_example :
    let (r, v) = query_token_saver_summary env central in
    ((e : HandlerError) × (r ≡ err e))
    ⊎ ((s : TokenSaverSummaryResponse) × (r ≡ ok s)
        × Balances (select was_applied central.audit_log) s)
summary_example = query_token_saver_summary-Balances env central

abbrev rendered : Result HandlerError AdminResponse → Response
rendered (ok answer) = record { status = 200; retry_after = none; body = other "done" }
rendered (err (status_code, message)) = record {
  status = status_code;
  retry_after = none;
  body = other message;
}

serve_change_example :
    Attributed env digest_of printed rendered "eng" of_ann
      (chat none)
      central
      (serve_change env digest_of printed rendered "eng" of_ann (chat none) central).1
serve_change_example =
    serve_change-Attributed env digest_of printed rendered "eng" of_ann (chat none) central
