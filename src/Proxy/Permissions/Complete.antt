-- ===== src/Proxy/Permissions/Complete.antt =====
-- While the database answers, `permissions_middleware` of crates/central/src/proxy/permissions.rs
-- refuses no request that passes its tests.
use oidc_agent_compat.Prelude.{
  ℕ, suc, String, ◌==◌, ◌≡◌, refl, inl, inr, Bool, true, false, ◌&&◌, Option, none, some, List, [],
  find, arith, Bool-cases, Option-cases,
}
use oidc_agent_compat.Prelude.Int.{ℤ, pos, ltb_ℤ, leb_ℤ}
use oidc_agent_compat.Error.{Result, ok}
use oidc_agent_compat.Entity.{UsageCounter}
use oidc_agent_compat.External.{External}
use oidc_agent_compat.World.{World, ◌>>=◌, attempt, query, new_v4}
use oidc_agent_compat.World.Cases.{with_faults, execute-answered}
use oidc_agent_compat.Usage.{is_current, reserve_row, try_reserve_request, get_usage}
use oidc_agent_compat.Usage.Reserve.{requests}
use oidc_agent_compat.Json.{extract_model}
use oidc_agent_compat.Policy.Merge.{ResolvedPolicy, is_model_allowed, is_endpoint_allowed}
use oidc_agent_compat.Proxy.Http.{VerifiedRelayIdentity, Request, Response, Next, run}
use oidc_agent_compat.Proxy.Permissions.{
  forward, reserved, check_request_quota, compare_tokens, check_token_quota, check_body_model,
  check_body, check_model, check_endpoint,
}
use oidc_agent_compat.Proxy.Permissions.Tested.{
  below_quota, tokens_permitted, body_model_permitted, body_permitted, model_permitted, is_set,
  granted_request,
}
use oidc_agent_compat.Proxy.Permissions.Gate.{content_permitted}

-- whether the request quota leaves a request for a user who has made some
abbrev pub has_room : Option ℤ → ℤ → Bool
has_room none made = true
has_room (some quota) made = ltb_ℤ (pos 0) quota && ltb_ℤ made quota

reserve_row-granted :
    (id s : String) (g : Option String) (q : ℤ) (w : World)
    → ltb_ℤ (pos 0) q ≡ true
    → ltb_ℤ (requests s w) q ≡ true
    → (reserve_row id s g q w).0 ≡ true
reserve_row-granted id s g q w positive room =
    elim (Option-cases (find (is_current s w) w.usage_counters)) [
      | inl missing ↦ rw (reserve_row, missing) refl
      | inr (r, found) ↦ let below = rw found at room in rw (reserve_row, found, below) refl
    ]

try_reserve_request-granted :
    (s : String) (g : Option String) (q : ℤ) (w : World)
    → w.faults ≡ []
    → has_room (some q) (requests s w) ≡ true
    → (try_reserve_request s g q w).0 ≡ ok true
unfolding try_reserve_request ◌>>=◌ new_v4
try_reserve_request-granted s g q w answers room =
    let positive : ltb_ℤ (pos 0) q ≡ true = ground arith in
    let below : ltb_ℤ (requests s w) q ≡ true = ground arith in
    let open_quota : leb_ℤ q (pos 0) ≡ false = ground arith in
    let v = record w { drawn = suc w.drawn } in
    let run =
      execute-answered (reserve_row (w.uuids w.drawn) s g q) "reserve usage request" v answers in
    let yes = reserve_row-granted (w.uuids w.drawn) s g q (with_faults v []) positive below in
    rw (open_quota, run, yes) refl

module _ (x : External) (next : Next) (identity : VerifiedRelayIdentity)
    (policy : ResolvedPolicy) where
  -- the request is handed on with the decision and the grant of the policy
  abbrev pub Passes : Request → Result ℕ Response × World → Type 0
  Passes request r =
      (v : World) × (r
        ≡ run next (granted_request policy (is_set policy.daily_request_quota) request) v)

  abbrev subject : String
  subject = identity.subject

  reserved-Passes :
      (request : Request) (quota : Option ℤ) (w : World)
      → w.faults ≡ []
      → has_room quota (requests subject w) ≡ true
      → (v : World) × (check_request_quota x next identity policy request quota w
          ≡ run next (granted_request policy (is_set quota) request) v)
  unfolding check_request_quota reserved forward ◌>>=◌ attempt
  reserved-Passes request none w answers room = (w, refl)
  reserved-Passes request (some q) w answers room =
      let yes = try_reserve_request-granted subject identity.groups q w answers room in
      ((try_reserve_request subject identity.groups q w).1, rw yes refl)

  -- what the tests need to know of the world
  abbrev usage_of : World → Option UsageCounter
  usage_of w = find (is_current subject w) w.usage_counters

  abbrev pub room_in : World → Bool
  room_in w = has_room policy.daily_request_quota (requests subject w)

  compare_tokens-Passes :
      (request : Request) (quota : ℤ) (usage : Option UsageCounter) (w : World)
      → w.faults ≡ []
      → room_in w ≡ true
      → below_quota quota usage ≡ true
      → Passes request (compare_tokens x next identity policy request quota (ok usage) w)
  unfolding compare_tokens
  compare_tokens-Passes request quota none w answers room below =
      reserved-Passes request policy.daily_request_quota w answers room
  compare_tokens-Passes request quota (some usage) w answers room below =
      let under : leb_ℤ quota usage.token_count ≡ false = ground arith in
      rw under (reserved-Passes request policy.daily_request_quota w answers room)

  check_token_quota-Passes :
      (request : Request) (quota : Option ℤ) (w : World)
      → w.faults ≡ []
      → room_in w ≡ true
      → tokens_permitted quota (usage_of w) ≡ true
      → Passes request (check_token_quota x next identity policy request quota w)
  unfolding check_token_quota compare_tokens ◌>>=◌ attempt get_usage query
  check_token_quota-Passes request none w answers room below =
      reserved-Passes request policy.daily_request_quota w answers room
  check_token_quota-Passes request (some quota) w answers room below =
      let run = execute-answered (λ v. (usage_of v, v)) "get usage" w answers in
      rw run (compare_tokens-Passes request quota (usage_of w) (with_faults w []) refl room below)

  abbrev tokens_in : World → Bool
  tokens_in w = tokens_permitted policy.daily_token_quota (usage_of w)

  check_body_model-Passes :
      (request : Request) (model : Option String) (w : World)
      → w.faults ≡ []
      → room_in w ≡ true
      → (body_model_permitted policy model && tokens_in w) ≡ true
      → Passes request (check_body_model x next identity policy request model w)
  unfolding check_body_model
  check_body_model-Passes request none w answers room h =
      check_token_quota-Passes request policy.daily_token_quota w answers room h
  check_body_model-Passes request (some model) w answers room h =
      let permitted : is_model_allowed policy model ≡ true = ground arith in
      let below : tokens_in w ≡ true = ground arith in
      rw permitted (check_token_quota-Passes request policy.daily_token_quota w answers room below)

  check_body-Passes :
      (request : Request) (body : Option (List ℕ)) (w : World)
      → w.faults ≡ []
      → room_in w ≡ true
      → (body_permitted x policy body && tokens_in w) ≡ true
      → Passes request (check_body x next identity policy request body w)
  unfolding check_body
  check_body-Passes request none w answers room h = cc h
  check_body-Passes request (some bytes) w answers room h =
      check_body_model-Passes request (extract_model x bytes) w answers room h

  check_model-Passes :
      (request : Request) (w : World)
      → w.faults ≡ []
      → room_in w ≡ true
      → (model_permitted x policy request && tokens_in w) ≡ true
      → Passes request (check_model x next identity policy request w)
  unfolding check_model
  check_model-Passes request w answers room h = elim (Bool-cases (request.method == "POST")) [
    | inl post ↦ rw post (check_body-Passes request request.body w answers room (rw post at h))
    | inr other ↦
        rw other
          (check_token_quota-Passes request policy.daily_token_quota w answers room (rw other at h))
  ]

  pub check_endpoint-Passes :
      (request : Request) (w : World)
      → w.faults ≡ []
      → room_in w ≡ true
      → content_permitted x next identity policy request w ≡ true
      → Passes request (check_endpoint x next identity policy request w)
  unfolding check_endpoint
  check_endpoint-Passes request w answers room h =
      let permitted : is_endpoint_allowed policy request.path ≡ true = ground arith in
      let rest : (model_permitted x policy request && tokens_in w) ≡ true = ground arith in
      rw permitted (check_model-Passes request w answers room rest)
