-- ===== src/Proxy/Auth/Laws.antt =====
-- What crates/central/src/proxy/auth.rs lets through.
use mathlib.Core.Option as Opt
use oidc_agent_compat.Prelude.{
  String, ◌==◌, ◌≡◌, refl, inl, inr, true, false, Option, none, some, find, Bool-cases,
  Option-cases,
}
use oidc_agent_compat.Error.{ok}
use oidc_agent_compat.Entity.{Token}
use oidc_agent_compat.External.{External}
use oidc_agent_compat.World.{World, ◌>>=◌, attempt}
use oidc_agent_compat.Token.{identity_of, verify_token}
use oidc_agent_compat.Token.Verify.{accepts, verify_token-eq-find}
use oidc_agent_compat.Proxy.Http.{Request, header_text, Next}
use oidc_agent_compat.Proxy.Auth.{
  bearer_of, header_device_fingerprint, is_bound_here, attach, enter, auth_middleware,
}
use oidc_agent_compat.Proxy.Permissions.Tested.{Outcome}

module _ (x : External) (next : Next) (request : Request) where
  -- what is known of the bearer whose request is handed on
  abbrev pub Authentic : World → Request → World → Type 0
  Authentic w sent v =
      (bearer : String) × (token : Token) × (bearer_of request ≡ some bearer)
      × (find (accepts x bearer w.now) w.tokens ≡ some token)
      × (is_bound_here token.device_fingerprint (header_text header_device_fingerprint request)
          ≡ true)
      × (sent ≡ attach (identity_of token) request)

  enter-Outcome :
      (bearer : String) (w v : World) (found : Option Token)
      → bearer_of request ≡ some bearer
      → find (accepts x bearer w.now) w.tokens ≡ found
      → Outcome next (Authentic w) (enter next request (ok (Opt.map identity_of found)) v)
  unfolding enter ◌>>=◌
  enter-Outcome bearer w v none given h = inl refl
  enter-Outcome bearer w v (some token) given h =
      let here =
        is_bound_here token.device_fingerprint (header_text header_device_fingerprint request) in
      elim (Bool-cases here) [
        | inl bound ↦ inr (
          attach (identity_of token) request,
          v,
          rw bound refl,
          (bearer, token, given, h, bound, refl),
        )
        | inr elsewhere ↦ rw elsewhere (inl refl)
      ]

  auth_middleware_enters :
      (w : World) (bearer : String)
      → (request.path == "/healthz") ≡ false
      → bearer_of request ≡ some bearer
      → auth_middleware x false next request w
        ≡ enter next request (verify_token x bearer w).0 (verify_token x bearer w).1
  unfolding auth_middleware ◌>>=◌ attempt
  auth_middleware_enters w bearer path given = simp (path, given) refl

  -- Outside dev mode a request to any path but the health check is refused or handed on, and it is
  -- handed on only if its bearer token is one that the store accepts now and any device that the
  -- token is bound to is the one that the request names; the identity that is attached is that of
  -- the stored token, whatever identity headers the request has.
  pub auth_middleware_lem :
      (w : World)
      → (request.path == "/healthz") ≡ false
      → Outcome next (Authentic w) (auth_middleware x false next request w)
  unfolding auth_middleware ◌>>=◌ enter
  auth_middleware_lem w path = elim (Option-cases (bearer_of request)) [
    | inl missing ↦ inl (simp (path, missing) refl)
    | inr (bearer, given) ↦ elim (verify_token-eq-find x bearer w) [
      | inl answered ↦
          rw (auth_middleware_enters w bearer path given, answered)
            (enter-Outcome bearer w (verify_token x bearer w).1 _ given refl)
      | inr (m, later, due, failed) ↦
          inl (rw (auth_middleware_enters w bearer path given, failed) refl)
    ]
  ]
