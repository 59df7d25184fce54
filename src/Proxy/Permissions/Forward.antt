-- ===== src/Proxy/Permissions/Forward.antt =====
-- Which requests `permissions_middleware` of crates/central/src/proxy/permissions.rs hands on.
use oidc_agent_compat.Prelude.{
  ℕ, String, ◌==◌, ◌≡◌, refl, ◌⊎◌, inl, inr, Bool, true, false, not, ◌&&◌, Option, none, some, List,
  [], ◌∷◌, find,
}
use oidc_agent_compat.Error.{Error, Result, ok, err}
use oidc_agent_compat.External.{External}
use oidc_agent_compat.World.{World, ◌>>=◌, attempt, query, now_utc}
use oidc_agent_compat.World.Cases.{with_faults, execute-Ends}
use oidc_agent_compat.Device.{upsert_device}
use oidc_agent_compat.Device.Answer.{revocation, is_revoked-Ends, upsert_device-keeps}
use oidc_agent_compat.Policy.Merge.{ResolvedPolicy, default_policy, resolve_rows}
use oidc_agent_compat.Policy.Store.{rows_of, resolve_policy}
use oidc_agent_compat.Token.{check_backstop, revoke_by_token_id}
use oidc_agent_compat.Usage.{is_current}
use oidc_agent_compat.Proxy.Http.{VerifiedRelayIdentity, Request, Response, Next}
use oidc_agent_compat.Proxy.Permissions.{
  device_id, groups_of, check_endpoint, register, admit, check_device, check_token_age,
  backstop_reason, enforce, permissions_middleware,
}
use oidc_agent_compat.Proxy.Permissions.Deny.{deny-refuses}
use oidc_agent_compat.Proxy.Permissions.Tested.{Outcome, Outcome-map, is_young}
use oidc_agent_compat.Proxy.Permissions.Gate.{Tested, content_permitted, check_endpoint-Outcome}

-- `admit` treats an unknown device as one that is not revoked
abbrev pub not_revoked : Option Bool → Bool
not_revoked none = true
not_revoked (some revoked) = not revoked

module _ (x : External) (next : Next) (identity : VerifiedRelayIdentity)
    (policy : ResolvedPolicy) where
  abbrev Passed : Bool → Request → World → Result ℕ Response × World → Type 0
  Passed test request w = Outcome next (Tested x next identity policy test request w)

  -- the content's tests read the counters and the clock of the world only
  endpoint_later :
      (request : Request) (w v : World)
      → v.usage_counters ≡ w.usage_counters
      → v.now ≡ w.now
      → Passed
          (content_permitted x next identity policy request w)
          request
          w
          (check_endpoint x next identity policy request v)
  endpoint_later request w v counters clock =
      let same : find (is_current identity.subject v) v.usage_counters
          ≡ find (is_current identity.subject w) w.usage_counters =
        rw (counters, clock) refl in
      Outcome-map next
        (Tested x next identity policy (content_permitted x next identity policy request v) request
          v)
        (Tested x next identity policy (content_permitted x next identity policy request w) request
          w)
        (check_endpoint-Outcome x next identity policy request v)
        (λ sent u (passed, (granted, kept)). (rw (← same) passed, (granted, rw (← same) kept)))

  register-Outcome :
      (request : Request) (w : World)
      → Passed
          (content_permitted x next identity policy request w)
          request
          w
          (register x next identity policy request w)
  unfolding register ◌>>=◌ attempt
  register-Outcome request w =
      let v = (upsert_device (device_id identity) identity.subject identity.email w).1 in
      let (counters, clock) =
        upsert_device-keeps (device_id identity) identity.subject identity.email w in
      endpoint_later request w v counters clock

  -- the tests behind the one of the token's age
  abbrev admitted : Request → World → Bool
  admitted request w =
      not_revoked (revocation (device_id identity) w)
      && content_permitted x next identity policy request w

  admit-Outcome :
      (request : Request) (w : World) (known : Option Bool)
      → Passed
          (not_revoked known && content_permitted x next identity policy request w)
          request
          w
          (admit x next identity policy request (ok known) w)
  unfolding admit
  admit-Outcome request w none = register-Outcome request w
  admit-Outcome request w (some false) = register-Outcome request w
  admit-Outcome request w (some true) =
      inl (deny-refuses identity request.path none "device_revoked" 403 w refl)

  check_device-Outcome :
      (request : Request) (w : World)
      → Passed (admitted request w) request w (check_device x next identity policy request w)
  unfolding check_device admit ◌>>=◌ attempt
  check_device-Outcome request w =
      let (fs, ends) = is_revoked-Ends (device_id identity) w in
      elim ends [
        | inl (r, after) ↦
            rw (r, after)
              (admit-Outcome request (with_faults w fs) (revocation (device_id identity) w))
        | inr (e, r, after) ↦ inl (rw r refl)
      ]

  -- all tests of the middleware on an identity
  abbrev pub permitted : Request → World → Bool
  permitted request w =
      is_young policy identity.token_id identity.created_at w.now && admitted request w

  aged-Outcome :
      (request : Request) (w : World) (id : String) (aged : Bool) (created_at : ℕ)
      → check_backstop w.now created_at policy.max_token_ttl_seconds ≡ aged
      → Passed
          (not aged && admitted request w)
          request
          w
          (check_token_age x next identity policy request (some id) (some created_at) w)
  unfolding check_token_age ◌>>=◌ attempt now_utc
  aged-Outcome request w id true created_at h = rw h (
      inl (
        deny-refuses identity request.path none backstop_reason 401 (revoke_by_token_id id w).1
          refl))
  aged-Outcome request w id false created_at h = rw h (check_device-Outcome request w)

  check_token_age-Outcome :
      (request : Request) (w : World) (token_id : Option String) (created_at : Option ℕ)
      → Passed
          (is_young policy token_id created_at w.now && admitted request w)
          request
          w
          (check_token_age x next identity policy request token_id created_at w)
  unfolding check_token_age
  check_token_age-Outcome request w (some id) (some created_at) =
      aged-Outcome request w id _ created_at refl
  check_token_age-Outcome request w (some id) none = check_device-Outcome request w
  check_token_age-Outcome request w none created_at = check_device-Outcome request w

-- the policy that the stored rows give a user of these groups
abbrev pub policy_of : External → List String → World → ResolvedPolicy
policy_of x [] w = default_policy
policy_of x (group ∷ groups) w = resolve_rows x.parse_strings (rows_of x (group ∷ groups) w)

pub resolve_policy-Ends :
    (x : External) (groups : List String) (w : World)
    → let (r, v) = resolve_policy x groups w in
      (fs : List (Option String)) × ((r ≡ ok (policy_of x groups w)) × (v ≡ with_faults w fs)
        ⊎ ((e : Error) × (r ≡ err e) × (v ≡ with_faults w fs)))
unfolding resolve_policy ◌>>=◌ query
resolve_policy-Ends x [] w = (w.faults, inl (refl, refl))
resolve_policy-Ends x (group ∷ groups) w =
    let (fs, ends) =
      execute-Ends (λ v. (rows_of x (group ∷ groups) v, v)) "query group policies" w in
    elim ends [
      | inl (r, after) ↦ (fs, inl (rw r refl, rw (r, after) refl))
      | inr (e, r, after) ↦ (fs, inr (e, rw r refl, rw (r, after) refl))
    ]

-- a request that the health check and dev mode do not let through is tested
pub middleware_enforces :
    (x : External) (next : Next) (request : Request) (identity : VerifiedRelayIdentity) (w : World)
    → (request.path == "/healthz") ≡ false
    → request.identity ≡ some identity
    → let answer = resolve_policy x (groups_of x identity.groups) w in
      permissions_middleware x next request w ≡ enforce x next identity request answer.0 answer.1
unfolding permissions_middleware ◌>>=◌ attempt
middleware_enforces x next request identity w path known = simp (path, known) refl

module _ (x : External) (next : Next) (request : Request) (identity : VerifiedRelayIdentity) where
  enforce-Outcome :
      (w v : World) (r : Result Error ResolvedPolicy) (resolved : ResolvedPolicy)
      → r ≡ ok resolved
      → let policy = policy_of x (groups_of x identity.groups) w in
        (fs : List (Option String))
        → ((r ≡ ok policy) × (v ≡ with_faults w fs)
            ⊎ ((e : Error) × (r ≡ err e) × (v ≡ with_faults w fs)))
        → Outcome next
            (Tested x next identity policy (permitted x next identity policy request w) request w)
            (enforce x next identity request r v)
  unfolding enforce ◌>>=◌
  enforce-Outcome w v r resolved given fs (inl (answer, after)) =
      rw (answer, after)
        (check_token_age-Outcome x next identity (policy_of x (groups_of x identity.groups) w)
          request (with_faults w fs) identity.token_id identity.created_at)
  enforce-Outcome w v r resolved given fs (inr (e, answer, after)) =
      let bad = rw answer at given in cc bad

-- A request of an identified user, to any path but the health check, whose policy the database
-- resolves, is refused or handed on. It is handed on only if, under the policy that the stored rows
-- give the user's groups, the token is not too old, the device is not revoked, the endpoint and the
-- body's model are allowed and the token quota is not used up; what is handed on is the request with
-- the decision and the grant of that policy, and under a request quota one request is then counted
-- more, within the quota. A failure of any later statement never hands on a request that fails a
-- test.
pub permissions_middleware_lem :
    (x : External) (next : Next) (request : Request) (identity : VerifiedRelayIdentity) (w : World)
    (resolved : ResolvedPolicy)
    → (request.path == "/healthz") ≡ false
    → request.identity ≡ some identity
    → (resolve_policy x (groups_of x identity.groups) w).0 ≡ ok resolved
    → let policy = policy_of x (groups_of x identity.groups) w in
      Outcome next
        (Tested x next identity policy (permitted x next identity policy request w) request w)
        (permissions_middleware x next request w)
permissions_middleware_lem x next request identity w resolved path known given =
    let answer = resolve_policy x (groups_of x identity.groups) w in
    let (fs, ends) = resolve_policy-Ends x (groups_of x identity.groups) w in
    rw (middleware_enforces x next request identity w path known)
      (enforce-Outcome x next request identity w answer.1 answer.0 resolved given fs ends)
