-- ===== src/Tests/Forward.antt =====
-- The laws of crates/central/src/proxy/forward.rs, pricing.rs and rate_limit.rs at concrete inputs.
use oidc_agent_compat.Prelude.{
  ℕ, ◌+◌, ◌-◌, ◌*◌, ◌/◌, min, leb, String, ◌≡◌, refl, true, Option, none, some, List, [], ◌∷◌, map,
  length, sort_by, arith,
}
use oidc_agent_compat.Prelude.Int.{ℤ, pos_part}
use oidc_agent_compat.Error.{ok}
use oidc_agent_compat.Float.{Float}
use oidc_agent_compat.World.{query, execute, map_err, ◌>>=◌}
use oidc_agent_compat.Providers.Keys.{resolve_key}
use oidc_agent_compat.Proxy.Forward.Stream.{chunk, broken, poll, poll_all, new_tap}
use oidc_agent_compat.Proxy.Forward.Stream.Chunks.{
  split_lines, all_lines, concat, usage_of_lines, passed, poll_all_lem,
}
use oidc_agent_compat.Proxy.Forward.Retry.{ProviderClient, Outgoing, send_loop}
use oidc_agent_compat.Proxy.Forward.Retry.Ends.{Ended, send_loop-Ended}
use oidc_agent_compat.External.{null}
use oidc_agent_compat.Providers.{resolve_provider_for_model}
use oidc_agent_compat.Pricing.{
  PriceTable, override, ModelsClient, price_of, is_override, compute_cost,
  refresh_provider_prices_once,
}
use oidc_agent_compat.Pricing.Overrides.{refresh-compute_cost}
use oidc_agent_compat.Proxy.Http.{Request}
use oidc_agent_compat.Proxy.Forward.Handler.{send_with_keys, forward_request, proxy_handler}
use oidc_agent_compat.Proxy.Forward.Handler.Settled.{Settles, proxy_handler-Settles}
use oidc_agent_compat.Proxy.RateLimit.{new, try_take, take_entry}
use oidc_agent_compat.Proxy.RateLimit.Eviction.{Rounds, Calls, answers, answers-try_take}
use oidc_agent_compat.Tests.Data.{env, central, open_provider, ann, chat}

-- a line of a stream, cut in two
abbrev halves : List (List ℕ)
halves = (100 ∷ 97 ∷ 116 ∷ []) ∷ (97 ∷ 58 ∷ 123 ∷ 125 ∷ 10 ∷ []) ∷ []

poll_all_example :
    let (out, t) = poll_all env (map chunk halves) new_tap in
    let ended = (poll env none t).1 in
    let failed = (poll env (some (broken "reset")) t).1 in
    (out ≡ passed env halves)
    × (t.buffer.1 ≡ usage_of_lines env (split_lines (concat halves)).0 none)
    × (ended.buffer.1 ≡ usage_of_lines env (all_lines (split_lines (concat halves))) none)
    × (ended.signalled ≡ true)
    × (failed.buffer.1 ≡ usage_of_lines env (all_lines (split_lines (concat halves))) none)
    × (failed.signalled ≡ true)
poll_all_example = poll_all_lem env halves "reset"

-- a provider that refuses every key
abbrev refusing : ProviderClient
refusing request w = (ok (record { status = 401; headers = []; events = [] }), w)

abbrev outgoing : Outgoing
outgoing = record { method = "POST"; path = "/v1/chat/completions"; headers = []; body = [] }

first_key :
    (resolve_key env ("eng" ∷ []) [] "openai" central).0
    ≡ ok (some (record { id = "k2"; secret = "sk" }))
unfolding resolve_key query execute sort_by ◌>>=◌
first_key = refl

-- the exact arithmetic of natural numbers
abbrev exact : Float
exact = record {
  of_int = pos_part;
  add = λ a b. a + b;
  sub = λ a b. a - b;
  mul = λ a b. a * b;
  div = λ a b. a / b;
  least = min;
  at_least = λ a b. leb b a;
  ceil_u64 = λ a. a;
  as_secs = λ d. d / 1_000_000_000;
  parse = λ s. none;
  of_number = λ s. none;
}

exact-Rounds : Rounds exact (new exact 60 60_000_000_000)
unfolding new
exact-Rounds = record {
  full_holds = refl;
  stays_full = refl;
  fills = λ tokens idle s m. ground arith;
  refills = λ tokens idle s. ground arith;
  takes = λ tokens h. ground arith;
}

abbrev three_calls : Calls
three_calls = ("a", 5) ∷ ("b", 900_000_000_000) ∷ ("a", 2_000_000_000_000) ∷ []

answers-try_take_example :
    answers (try_take exact) three_calls (new exact 60 60_000_000_000)
    ≡ answers (take_entry exact) three_calls (new exact 60 60_000_000_000)
answers-try_take_example =
    answers-try_take exact 60 60_000_000_000 exact-Rounds three_calls (omega arith)

send_loop_example :
    let v = (resolve_key env ("eng" ∷ []) [] "openai" central).1 in
    Ended env refusing
      ("eng" ∷ [])
      open_provider
      outgoing
      (send_loop env refusing
        ("eng" ∷ [])
        open_provider
        outgoing
        (length v.provider_keys)
        []
        (record { id = "k2"; secret = "sk" })
        v).0
send_loop_example =
    send_loop-Ended env refusing ("eng" ∷ []) open_provider outgoing (λ q w. refl) central first_key

-- a provider that answers
abbrev answering : ProviderClient
answering request w = (
  ok (record {
    status = 200;
    headers = record { name = "content-type"; text = some "application/json" } ∷ [];
    events = chunk (123 ∷ []) ∷ chunk (125 ∷ []) ∷ [];
  }),
  w,
)

abbrev asked : Request
asked = record (chat (some ann)) {
  decision = some (record { decision = "allowed"; reason = none; request_reserved = true });
}

abbrev no_prices : PriceTable
no_prices = []

answered_without_faults :
    (forward_request env exact no_prices answering 12 asked central).1.faults ≡ []
unfolding forward_request resolve_provider_for_model send_with_keys resolve_key query execute
    sort_by map_err ◌>>=◌
answered_without_faults = refl

proxy_handler_example :
    let (r, v) = forward_request env exact no_prices answering 12 asked central in
    Settles env exact no_prices answering 12 asked r v
      (proxy_handler env exact no_prices answering 12 asked central)
proxy_handler_example =
    proxy_handler-Settles env exact no_prices answering 12 asked central answered_without_faults

-- one price that is configured, and a provider that answers with no list of models
abbrev priced : PriceTable
priced =
    (
      "gpt-4",
      record {
        price = record { input_per_1k_usd = 30; output_per_1k_usd = 60 };
        source = override;
      },
    )
    ∷ []

abbrev listing : ModelsClient
listing url bearer w = (ok (200, some null), w)

refresh_example :
    (t' : PriceTable) × ((refresh_provider_prices_once exact env listing priced central).0 ≡ ok t')
    × ((model : String) (prompt completion : Option ℤ)
        → is_override (price_of model priced) ≡ true
        → compute_cost exact t' model prompt completion
          ≡ compute_cost exact priced model prompt completion)
refresh_example = refresh-compute_cost exact env listing priced central
