-- ===== src/Proxy/Permissions/Answer.antt =====
-- The requests that `permissions_middleware` of crates/central/src/proxy/permissions.rs must not
-- refuse: those that pass its tests, while the database answers.
use oidc_agent_compat.Prelude.{
  ℕ, String, ◌==◌, ◌≡◌, refl, Bool, true, false, not, ◌&&◌, Option, none, some, List, [], ◌∷◌, find,
  arith,
}
use oidc_agent_compat.Error.{ok}
use oidc_agent_compat.External.{External}
use oidc_agent_compat.World.{World, ◌>>=◌, attempt, query, now_utc}
use oidc_agent_compat.World.Cases.{with_faults}
use oidc_agent_compat.Device.{upsert_device}
use oidc_agent_compat.Device.Answer.{
  revocation, upsert_device-keeps, upsert_device-answers, is_revoked-answered,
}
use oidc_agent_compat.Policy.Merge.{ResolvedPolicy}
use oidc_agent_compat.Policy.Store.{resolve_policy}
use oidc_agent_compat.Token.{check_backstop}
use oidc_agent_compat.Usage.{is_current}
use oidc_agent_compat.Proxy.Http.{VerifiedRelayIdentity, Request, Next}
use oidc_agent_compat.Proxy.Permissions.{
  device_id, groups_of, check_endpoint, register, admit, check_device, check_token_age, enforce,
  permissions_middleware,
}
use oidc_agent_compat.Proxy.Permissions.Tested.{is_young}
use oidc_agent_compat.Proxy.Permissions.Gate.{content_permitted}
use oidc_agent_compat.Proxy.Permissions.Complete.{Passes, room_in, check_endpoint-Passes}
use oidc_agent_compat.Proxy.Permissions.Forward.{
  not_revoked, permitted, policy_of, middleware_enforces,
}

module _ (x : External) (next : Next) (identity : VerifiedRelayIdentity)
    (policy : ResolvedPolicy) where
  abbrev Room : World → Type 0
  Room w = room_in x next identity policy w ≡ true

  abbrev Content : Request → World → Type 0
  Content request w = content_permitted x next identity policy request w ≡ true

  -- the tests read the counters and the clock of the world only
  endpoint_later :
      (request : Request) (w v : World)
      → v.usage_counters ≡ w.usage_counters
      → v.now ≡ w.now
      → v.faults ≡ []
      → Room w
      → Content request w
      → Passes x next identity policy request (check_endpoint x next identity policy request v)
  endpoint_later request w v counters clock answers room content =
      let same : find (is_current identity.subject v) v.usage_counters
          ≡ find (is_current identity.subject w) w.usage_counters =
        rw (counters, clock) refl in
      check_endpoint-Passes x next identity policy request v answers (rw same room)
        (rw same content)

  register-Passes :
      (request : Request) (w : World)
      → w.faults ≡ []
      → Room w
      → Content request w
      → Passes x next identity policy request (register x next identity policy request w)
  unfolding register ◌>>=◌ attempt
  register-Passes request w answers room content =
      let v = (upsert_device (device_id identity) identity.subject identity.email w).1 in
      let (counters, clock) =
        upsert_device-keeps (device_id identity) identity.subject identity.email w in
      let later =
        upsert_device-answers (device_id identity) identity.subject identity.email w answers in
      endpoint_later request w v counters clock later room content

  admit-Passes :
      (request : Request) (w : World) (known : Option Bool)
      → w.faults ≡ []
      → Room w
      → (not_revoked known && content_permitted x next identity policy request w) ≡ true
      → Passes x next identity policy request (admit x next identity policy request (ok known) w)
  unfolding admit
  admit-Passes request w none answers room h = register-Passes request w answers room h
  admit-Passes request w (some false) answers room h = register-Passes request w answers room h
  admit-Passes request w (some true) answers room h = cc h

  abbrev Admitted : Request → World → Type 0
  Admitted request w =
      (not_revoked (revocation (device_id identity) w)
        && content_permitted x next identity policy request w)
      ≡ true

  check_device-Passes :
      (request : Request) (w : World)
      → w.faults ≡ []
      → Room w
      → Admitted request w
      → Passes x next identity policy request (check_device x next identity policy request w)
  unfolding check_device admit ◌>>=◌ attempt
  check_device-Passes request w answers room h =
      rw (is_revoked-answered (device_id identity) w answers)
        (admit-Passes request (with_faults w []) (revocation (device_id identity) w) refl room h)

  aged-Passes :
      (request : Request) (w : World) (id : String) (aged : Bool) (created_at : ℕ)
      → check_backstop w.now created_at policy.max_token_ttl_seconds ≡ aged
      → w.faults ≡ []
      → Room w
      → not aged ≡ true
      → Admitted request w
      → Passes x next identity policy request
          (check_token_age x next identity policy request (some id) (some created_at) w)
  unfolding check_token_age ◌>>=◌ now_utc
  aged-Passes request w id true created_at e answers room young h = cc young
  aged-Passes request w id false created_at e answers room young h =
      rw e (check_device-Passes request w answers room h)

  check_token_age-Passes :
      (request : Request) (w : World) (token_id : Option String) (created_at : Option ℕ)
      → w.faults ≡ []
      → Room w
      → is_young policy token_id created_at w.now ≡ true
      → Admitted request w
      → Passes x next identity policy request
          (check_token_age x next identity policy request token_id created_at w)
  unfolding check_token_age
  check_token_age-Passes request w (some id) (some created_at) answers room young h =
      aged-Passes request w id _ created_at refl answers room young h
  check_token_age-Passes request w (some id) none answers room young h =
      check_device-Passes request w answers room h
  check_token_age-Passes request w none created_at answers room young h =
      check_device-Passes request w answers room h

resolve_policy-answered :
    (x : External) (groups : List String) (w : World)
    → resolve_policy x groups (with_faults w []) ≡ (ok (policy_of x groups w), with_faults w [])
unfolding resolve_policy ◌>>=◌ query
resolve_policy-answered x [] w = refl
resolve_policy-answered x (group ∷ groups) w = refl

-- While the database answers, a request of an identified user that passes every test, and for which
-- the request quota has room, is not refused: it is handed on, with the decision and the grant of
-- the policy of the user's groups.
pub permissions_middleware-Passes :
    (x : External) (next : Next) (request : Request) (identity : VerifiedRelayIdentity) (w : World)
    → (request.path == "/healthz") ≡ false
    → request.identity ≡ some identity
    → let policy = policy_of x (groups_of x identity.groups) w in
      permitted x next identity policy request w ≡ true
      → room_in x next identity policy w ≡ true
      → Passes x next identity policy request
          (permissions_middleware x next request (with_faults w []))
unfolding enforce
permissions_middleware-Passes x next request identity w path known allowed room =
    let policy = policy_of x (groups_of x identity.groups) w in
    let young : is_young policy identity.token_id identity.created_at w.now ≡ true = ground arith in
    let rest : (not_revoked (revocation (device_id identity) w)
          && content_permitted x next identity policy request w)
        ≡ true =
      ground arith in
    rw
      (
        middleware_enforces x next request identity (with_faults w []) path known,
        resolve_policy-answered x (groups_of x identity.groups) w,
      )
      (check_token_age-Passes x next identity policy request (with_faults w []) identity.token_id
        identity.created_at refl room young rest)
