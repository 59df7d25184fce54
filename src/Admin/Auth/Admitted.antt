-- ===== src/Admin/Auth/Admitted.antt =====
-- Whom `admin_auth_middleware` of crates/central/src/admin.rs lets through.
use mathlib.Core.Option as Opt
use oidc_agent_compat.Prelude.{
  ℕ, String, ◌≡◌, refl, ◌⊎◌, inl, inr, true, Option, none, some, find, Bool-cases, Option-cases,
}
use oidc_agent_compat.Error.{Result, ok}
use oidc_agent_compat.Entity.{Token}
use oidc_agent_compat.External.{External}
use oidc_agent_compat.World.{World, ◌>>=◌, attempt}
use oidc_agent_compat.Policy.Merge.{contains}
use oidc_agent_compat.Token.{identity_of, verify_token}
use oidc_agent_compat.Token.Verify.{accepts, verify_token-eq-find}
use oidc_agent_compat.Proxy.Http.{Request, Response}
use oidc_agent_compat.Proxy.Auth.{bearer_of}
use oidc_agent_compat.Proxy.Permissions.Deny.{refuses}
use oidc_agent_compat.Admin.Auth.{
  AdminIdentity, AdminNext, token_groups, admit_admin, admin_auth_middleware,
}

module _ (x : External) (admin_group : String) (next : AdminNext) (request : Request) where
  -- what is known of the bearer whose request is handed on
  abbrev pub Administers : World → AdminIdentity → Type 0
  Administers w identity =
      (bearer : String) × (token : Token) × (bearer_of request ≡ some bearer)
      × (find (accepts x bearer w.now) w.tokens ≡ some token)
      × (contains (token_groups x token.groups) admin_group ≡ true)
      × (identity.subject ≡ token.subject)

  -- The layer refuses, or it hands the request on with an identity of an administrator.
  abbrev pub Guarded : World → Result ℕ Response × World → Type 0
  Guarded w r =
      (refuses r.0 ≡ true)
      ⊎ ((identity : AdminIdentity) × (v : World) × (r ≡ next identity request v)
          × Administers w identity)

  admit_admin-Guarded :
      (bearer : String) (w v : World) (found : Option Token)
      → bearer_of request ≡ some bearer
      → find (accepts x bearer w.now) w.tokens ≡ found
      → Guarded w (admit_admin x admin_group next request (ok (Opt.map identity_of found)) v)
  unfolding admit_admin ◌>>=◌
  admit_admin-Guarded bearer w v none given h = inl refl
  admit_admin-Guarded bearer w v (some token) given h =
      elim (Bool-cases (contains (token_groups x token.groups) admin_group)) [
        | inl member ↦ inr (
          record { subject = token.subject },
          v,
          rw member refl,
          (bearer, token, given, h, member, refl),
        )
        | inr outside ↦ rw outside (inl refl)
      ]

  admin_auth_middleware_admits :
      (w : World) (bearer : String)
      → bearer_of request ≡ some bearer
      → admin_auth_middleware x admin_group next request w
        ≡ admit_admin x admin_group next request
            (verify_token x bearer w).0
            (verify_token x bearer w).1
  unfolding admin_auth_middleware ◌>>=◌ attempt
  admin_auth_middleware_admits w bearer given = rw (given, admin_auth_middleware) refl

  -- A request to the admin interface is refused or handed on, and it is handed on only if its
  -- bearer token is one that the store accepts now and the groups of the stored token contain the
  -- group of the administrators; the handlers then act for the subject of the stored token.
  pub admin_auth_middleware_lem :
      (w : World) → Guarded w (admin_auth_middleware x admin_group next request w)
  unfolding admin_auth_middleware ◌>>=◌ admit_admin
  admin_auth_middleware_lem w = elim (Option-cases (bearer_of request)) [
    | inl missing ↦ inl (rw (missing, admin_auth_middleware) refl)
    | inr (bearer, given) ↦ elim (verify_token-eq-find x bearer w) [
      | inl answered ↦
          rw (admin_auth_middleware_admits w bearer given, answered)
            (admit_admin-Guarded bearer w (verify_token x bearer w).1 _ given refl)
      | inr (m, later, due, failed) ↦
          inl (rw (admin_auth_middleware_admits w bearer given, failed) refl)
    ]
  ]
