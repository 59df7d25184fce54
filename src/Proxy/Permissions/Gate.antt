-- ===== src/Proxy/Permissions/Gate.antt =====
-- What a request must satisfy to pass the checks of crates/central/src/proxy/permissions.rs, from the
-- endpoint on.
use oidc_agent_compat.Prelude.{
  ℕ, String, ◌==◌, eq_refl, ◌≡◌, refl, inl, inr, Bool, true, false, ◌&&◌, Option, none, some, List,
  find, arith, Bool-cases, if◌then◌else◌,
}
use oidc_agent_compat.Prelude.Int.{ℤ, pos, ◌+ℤ◌, ◌≤ℤ◌, leb_ℤ}
use oidc_agent_compat.Error.{Error, Result, ok, err}
use oidc_agent_compat.Entity.{UsageCounter}
use oidc_agent_compat.External.{External}
use oidc_agent_compat.World.{World, ◌>>=◌, attempt, query}
use oidc_agent_compat.World.Cases.{with_faults, execute-Ends}
use oidc_agent_compat.Json.{extract_model}
use oidc_agent_compat.Policy.Merge.{ResolvedPolicy, is_model_allowed, is_endpoint_allowed}
use oidc_agent_compat.Usage.{is_current, get_usage, try_reserve_request}
use oidc_agent_compat.Usage.Reserve.{requests, granted, try_reserve_request_lem}
use oidc_agent_compat.Proxy.Http.{VerifiedRelayIdentity, Request, Next}
use oidc_agent_compat.Proxy.Permissions.{
  forward, reserved, check_request_quota, compare_tokens, check_token_quota, check_body_model,
  check_body, check_model, check_endpoint,
}
use oidc_agent_compat.Proxy.Permissions.Deny.{deny-refuses}
use oidc_agent_compat.Proxy.Permissions.Tested.{
  Outcome, Outcome-map, body_model_permitted, body_permitted, model_permitted, below_quota,
  tokens_permitted, is_set, granted_request, Reserved,
}

module _ (x : External) (next : Next) (identity : VerifiedRelayIdentity)
    (policy : ResolvedPolicy) where
  abbrev pub Counted : Option ℤ → Request → World → Request → World → Type 0
  Counted quota request w sent v =
      (sent ≡ granted_request policy (is_set quota) request)
      × Reserved quota (requests identity.subject w) (requests identity.subject v)

  reserved-Outcome :
      (request : Request) (w : World) (r : Result Error Bool) (v : World) (quota : ℤ)
      → requests identity.subject v
        ≡ (if granted r then requests identity.subject w +ℤ pos 1 else requests identity.subject w)
      → (granted r ≡ true → requests identity.subject v ≤ℤ quota)
      → Outcome next (Counted (some quota) request w) (reserved x next identity policy request r v)
  unfolding reserved forward ◌>>=◌
  reserved-Outcome request w (ok true) v quota counted bounded =
      inr (granted_request policy true request, v, refl, (refl, (counted, bounded refl)))
  reserved-Outcome request w (ok false) v quota counted bounded =
      inl (deny-refuses identity request.path none "quota_exceeded" 429 v refl)
  reserved-Outcome request w (err e) v quota counted bounded = inl refl

  check_request_quota-Outcome :
      (request : Request) (w : World) (quota : Option ℤ)
      → Outcome next
          (Counted quota request w)
          (check_request_quota x next identity policy request quota w)
  unfolding check_request_quota forward ◌>>=◌ attempt
  check_request_quota-Outcome request w none =
      inr (granted_request policy false request, w, refl, (refl, refl))
  check_request_quota-Outcome request w (some quota) =
      let answer = try_reserve_request identity.subject identity.groups quota w in
      let (counted, bounded) =
        try_reserve_request_lem identity.subject identity.groups quota w identity.subject in
      reserved-Outcome request w answer.0 answer.1 quota
        (ground (arith, counted, eq_refl identity.subject)) bounded

  -- what the handed-on request and world have to do with the ones that came in
  abbrev pub Sent : Request → World → Request → World → Type 0
  Sent request w = Counted policy.daily_request_quota request w

  abbrev pub Tested : Bool → Request → World → Request → World → Type 0
  Tested test request w sent v = (test ≡ true) × Sent request w sent v

  abbrev usage_of : World → Option UsageCounter
  usage_of w = find (is_current identity.subject w) w.usage_counters

  compare_tokens-Outcome :
      (request : Request) (w : World) (quota : ℤ) (usage : Option UsageCounter)
      → Outcome next
          (Tested (below_quota quota usage) request w)
          (compare_tokens x next identity policy request quota (ok usage) w)
  unfolding compare_tokens
  compare_tokens-Outcome request w quota none =
      Outcome-map next (Sent request w) (Tested true request w)
        (check_request_quota-Outcome request w policy.daily_request_quota)
        (λ sent v as_sent. (refl, as_sent))
  compare_tokens-Outcome request w quota (some usage) =
      elim (Bool-cases (leb_ℤ quota usage.token_count)) [
        | inl over ↦
            rw over
              (inl (deny-refuses identity request.path none "token_quota_exceeded" 429 w refl))
        | inr under ↦ rw under (
            Outcome-map next (Sent request w) (Tested true request w)
              (check_request_quota-Outcome request w policy.daily_request_quota)
              (λ sent v as_sent. (refl, as_sent)))
      ]

  check_token_quota-Outcome :
      (request : Request) (w : World) (quota : Option ℤ)
      → Outcome next
          (Tested (tokens_permitted quota (usage_of w)) request w)
          (check_token_quota x next identity policy request quota w)
  unfolding check_token_quota compare_tokens ◌>>=◌ attempt get_usage query
  check_token_quota-Outcome request w none =
      Outcome-map next (Sent request w) (Tested true request w)
        (check_request_quota-Outcome request w policy.daily_request_quota)
        (λ sent v as_sent. (refl, as_sent))
  check_token_quota-Outcome request w (some quota) =
      let (fs, ends) = execute-Ends (λ v. (usage_of v, v)) "get usage" w in
      elim ends [
        | inl (r, after) ↦
            rw (r, after) (compare_tokens-Outcome request (with_faults w fs) quota (usage_of w))
        | inr (e, r, after) ↦ inl (rw r refl)
      ]

  check_body_model-Outcome :
      (request : Request) (w : World) (model : Option String)
      → Outcome next
          (Tested
            (body_model_permitted policy model
              && tokens_permitted policy.daily_token_quota (usage_of w))
            request
            w)
          (check_body_model x next identity policy request model w)
  unfolding check_body_model
  check_body_model-Outcome request w none =
      check_token_quota-Outcome request w policy.daily_token_quota
  check_body_model-Outcome request w (some model) =
      elim (Bool-cases (is_model_allowed policy model)) [
        | inl permitted ↦
            rw permitted (check_token_quota-Outcome request w policy.daily_token_quota)
        | inr forbidden ↦
            rw forbidden
              (inl (deny-refuses identity request.path (some model) "model_not_allowed" 403 w refl))
      ]

  check_body-Outcome :
      (request : Request) (w : World) (body : Option (List ℕ))
      → Outcome next
          (Tested
            (body_permitted x policy body && tokens_permitted policy.daily_token_quota (usage_of w))
            request
            w)
          (check_body x next identity policy request body w)
  unfolding check_body ◌>>=◌
  check_body-Outcome request w none = inl refl
  check_body-Outcome request w (some bytes) =
      check_body_model-Outcome request w (extract_model x bytes)

  -- the tests that do not depend on the device and the age of the token
  abbrev pub content_permitted : Request → World → Bool
  content_permitted request w =
      is_endpoint_allowed policy request.path
      && (model_permitted x policy request
          && tokens_permitted policy.daily_token_quota (usage_of w))

  check_model-Outcome :
      (request : Request) (w : World)
      → Outcome next
          (Tested
            (model_permitted x policy request
              && tokens_permitted policy.daily_token_quota (usage_of w))
            request
            w)
          (check_model x next identity policy request w)
  unfolding check_model
  check_model-Outcome request w = elim (Bool-cases (request.method == "POST")) [
    | inl post ↦ rw post (check_body-Outcome request w request.body)
    | inr other ↦ rw other (check_token_quota-Outcome request w policy.daily_token_quota)
  ]

  pub check_endpoint-Outcome :
      (request : Request) (w : World)
      → Outcome next
          (Tested (content_permitted request w) request w)
          (check_endpoint x next identity policy request w)
  unfolding check_endpoint
  check_endpoint-Outcome request w = elim (Bool-cases (is_endpoint_allowed policy request.path)) [
    | inl permitted ↦ rw permitted (check_model-Outcome request w)
    | inr forbidden ↦
        rw forbidden
          (inl (deny-refuses identity request.path none "endpoint_not_allowed" 403 w refl))
  ]
