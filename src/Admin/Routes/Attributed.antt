-- ===== src/Admin/Routes/Attributed.antt =====
-- Whom the admin audit log names: the layer of crates/central/src/admin.rs with its handlers.
use mathlib.Core.Option as Opt
use oidc_agent_compat.Prelude.{
  String, ◌≡◌, refl, ◌∙◌, ap, ◌⊎◌, inl, inr, true, Option, none, some, List, [], ◌∷◌, ◌++◌, find,
  Bool-cases, Option-cases,
}
use oidc_agent_compat.Error.{Result, ok}
use oidc_agent_compat.Entity.{Token}
use oidc_agent_compat.External.{External}
use oidc_agent_compat.World.{World, Exec, ◌>>=◌, attempt}
use oidc_agent_compat.Policy.Merge.{contains}
use oidc_agent_compat.Token.{
  identity_of, touch_last_used, delete_by_id, delete_expired, accept, verify_token,
}
use oidc_agent_compat.Token.Verify.{accepts, verify_token-eq-find}
use oidc_agent_compat.Proxy.Http.{Request, Response}
use oidc_agent_compat.Proxy.Auth.{bearer_of}
use oidc_agent_compat.Admin.{HandlerError}
use oidc_agent_compat.Admin.Auth.{token_groups, admit_admin, admin_auth_middleware}
use oidc_agent_compat.Admin.Policies.{UpsertPolicyRequest}
use oidc_agent_compat.Admin.Routes.{
  Change, AdminResponse, answer_change, handle_change, serve_change,
}
use oidc_agent_compat.Admin.Routes.Quiet.{Quiet, Quiet-bind, quiet}
use oidc_agent_compat.Admin.Routes.Audited.{Outcome, Entered}
use oidc_agent_compat.Admin.Routes.Audited.Changes.{action_of, target_of, answer_change-Audits}

Quiet-attempt {ℓ κ μ} :
    {E : Type ℓ} {F : Type μ} {A : Type κ} (m : Exec E A) → Quiet m → Quiet (attempt {F = F} m)
unfolding attempt
Quiet-attempt m h = record { keeps = λ w. h.keeps w }

delete_by_id-Quiet : (id : String) → Quiet (delete_by_id id)
unfolding delete_by_id
delete_by_id-Quiet id = search quiet

delete_expired-Quiet : (ids : List String) → Quiet (delete_expired ids)
unfolding delete_expired
delete_expired-Quiet [] = search quiet
delete_expired-Quiet (id ∷ ids) =
    Quiet-bind _ _ (Quiet-attempt _ (delete_by_id-Quiet id)) (λ _. delete_expired-Quiet ids)

touch_last_used-Quiet : (id : String) → Quiet (touch_last_used id)
unfolding touch_last_used
touch_last_used-Quiet id = search quiet

accept-Quiet : (o : Option Token) → Quiet (accept o)
unfolding accept
accept-Quiet none = search quiet
accept-Quiet (some t) = search (quiet, Quiet-attempt, touch_last_used-Quiet)

verify_token-Quiet : (x : External) (bearer : String) → Quiet (verify_token x bearer)
unfolding verify_token
verify_token-Quiet x bearer = search (quiet, delete_expired-Quiet, accept-Quiet)

module _ (x : External) (sha256_hex : String → String)
    (print_request : UpsertPolicyRequest → String)
    (render : Result HandlerError AdminResponse → Response) (admin_group : String) (c : Change)
    (request : Request) where
  -- The log is as it was, or has a row for the subject of an administrator's token.
  abbrev pub Attributed : World → World → Type 0
  Attributed w v =
      (v.admin_audit_log ≡ w.admin_audit_log)
      ⊎ ((bearer : String) × (token : Token) × (bearer_of request ≡ some bearer)
          × (find (accepts x bearer w.now) w.tokens ≡ some token)
          × (contains (token_groups x token.groups) admin_group ≡ true)
          × Entered token.subject (action_of c) (target_of c) w v)

  handled-Attributed :
      (bearer : String) (token : Token) (w u : World)
      (r : Result HandlerError AdminResponse × World)
      → bearer_of request ≡ some bearer
      → find (accepts x bearer w.now) w.tokens ≡ some token
      → contains (token_groups x token.groups) admin_group ≡ true
      → u.admin_audit_log ≡ w.admin_audit_log
      → Outcome token.subject (action_of c) (target_of c) u r
      → Attributed w r.1
  handled-Attributed bearer token w u r given h member log (inl (e, q, k)) = inl (k ∙ log)
  handled-Attributed bearer token w u r given h member log (inr (a, q, inr (k, due))) =
      inl (k ∙ log)
  handled-Attributed bearer token w u r given h member log (inr (a, q, inl (row, k, s, t, o))) =
      inr (bearer, token, given, h, member, (row, k ∙ ap (λ rows. rows ++ row ∷ []) log, s, t, o))

  admitted-Attributed :
      (bearer : String) (found : Option Token) (w u : World)
      → bearer_of request ≡ some bearer
      → find (accepts x bearer w.now) w.tokens ≡ found
      → u.admin_audit_log ≡ w.admin_audit_log
      → Attributed w
          (admit_admin x admin_group
            (handle_change x sha256_hex print_request render c)
            request
            (ok (Opt.map identity_of found))
            u).1
  unfolding admit_admin handle_change ◌>>=◌
  admitted-Attributed bearer none w u given h log = inl log
  admitted-Attributed bearer (some token) w u given h log =
      elim (Bool-cases (contains (token_groups x token.groups) admin_group)) [
        | inl member ↦ rw member (
            handled-Attributed bearer token w u
              (answer_change x sha256_hex print_request token.subject c u) given h member log
              (answer_change-Audits x sha256_hex print_request token.subject c u))
        | inr outside ↦ rw outside (inl log)
      ]

  serve_change_verifies :
      (w : World) (bearer : String)
      → bearer_of request ≡ some bearer
      → serve_change x sha256_hex print_request render admin_group c request w
        ≡ admit_admin x admin_group
            (handle_change x sha256_hex print_request render c)
            request
            (verify_token x bearer w).0
            (verify_token x bearer w).1
  unfolding serve_change admin_auth_middleware ◌>>=◌ attempt
  serve_change_verifies w bearer given = rw (given, serve_change, admin_auth_middleware) refl

  -- Whoever sends a request that changes something through the layer: it leaves the audit log of the
  -- administrators as it was, or enters one row at its end, with the action and the target of the
  -- request; then the request carries a bearer token that the store accepted, whose groups contain the
  -- group of the administrators, and the row names the subject of this token.
  pub serve_change-Attributed :
      (w : World)
      → Attributed w (serve_change x sha256_hex print_request render admin_group c request w).1
  unfolding serve_change admin_auth_middleware admit_admin ◌>>=◌
  serve_change-Attributed w = elim (Option-cases (bearer_of request)) [
    | inl missing ↦ inl (rw (missing, serve_change, admin_auth_middleware) refl)
    | inr (bearer, given) ↦
        let log = ((verify_token-Quiet x bearer).keeps w).0 in
        elim (verify_token-eq-find x bearer w) [
          | inl answered ↦
              rw (serve_change_verifies w bearer given, answered)
                (admitted-Attributed bearer _ w (verify_token x bearer w).1 given refl log)
          | inr (m, later, due, failed) ↦
              inl (rw (serve_change_verifies w bearer given, failed) log)
        ]
  ]
