-- ===== src/Proxy/RateLimit.antt =====
-- crates/central/src/proxy/rate_limit.rs: a token bucket for each client address. An instant is a
-- number of nanoseconds. The locks are never poisoned, since nothing panics while one is held.
pub mod Eviction
use oidc_agent_compat.Prelude.{
  ℕ, ◌+◌, ◌-◌, ◌*◌, ◌%◌, String, ◌==◌, Bool, ◌||◌, not, Option, none, some, List, [], ◌∷◌, select,
  max, ltb, eqb, if◌then◌else◌,
}
use oidc_agent_compat.Prelude.Int.{pos}
use oidc_agent_compat.Error.{Result, ok, err}
use oidc_agent_compat.Float.{Float}
use oidc_agent_compat.World.{World}
use oidc_agent_compat.Proxy.Http.{Request, Response, Next, other}

pub record BucketState : Type 0 where
  pub tokens : ℕ
  pub last_update : ℕ

-- a hash map from addresses; its keys are different
abbrev pub Buckets : Type 0
Buckets = List (String × BucketState)

pub record RateLimiter : Type 0 where
  pub capacity : ℕ
  pub refill_per_second : ℕ
  pub buckets : Buckets
  pub window : ℕ
  pub call_count : ℕ

-- `EVICT_AFTER_WINDOWS` and `EVICT_EVERY_N_CALLS`
abbrev pub evict_after_windows : ℕ
evict_after_windows = 10

abbrev pub evict_every_n_calls : ℕ
evict_every_n_calls = 128

-- `buckets.get(ip)` and `insert`
unfoldable pub bucket_of : String → Buckets → Option BucketState
bucket_of ip [] = none
bucket_of ip ((i, b) ∷ buckets) =
    let later = bucket_of ip buckets in if i == ip then some b else later

unfoldable pub put_bucket : String → BucketState → Buckets → Buckets
put_bucket ip b [] = (ip, b) ∷ []
put_bucket ip b ((i, c) ∷ buckets) =
    let later = put_bucket ip b buckets in if i == ip then (i, b) ∷ buckets else (i, c) ∷ later

-- `duration_since` is zero for a later instant.
abbrev pub is_fresh : ℕ → ℕ → String × BucketState → Bool
is_fresh window now (ip, b) = ltb (now - b.last_update) (window * evict_after_windows)

unfoldable pub evict_stale_locked : ℕ → ℕ → Buckets → Buckets
evict_stale_locked window now buckets = select (is_fresh window now) buckets

-- a response, and the state of the service: the limiter, and the rest
abbrev pub Limited : Type 0
Limited = Response × Option RateLimiter × World

module _ (f : Float) where
  -- `RateLimiter::new`; a Duration of the window in nanoseconds
  unfoldable pub new : ℕ → ℕ → RateLimiter
  new capacity window = record {
    capacity = f.of_int (pos capacity);
    refill_per_second = f.div (f.of_int (pos capacity)) (f.as_secs window);
    buckets = [];
    window = window;
    call_count = 0;
  }

  abbrev pub one : ℕ
  one = f.of_int (pos 1)

  abbrev pub refill : RateLimiter → ℕ → BucketState → ℕ
  refill l now b =
      f.least (f.add b.tokens (f.mul (f.as_secs (now - b.last_update)) l.refill_per_second))
        l.capacity

  unfoldable pub retry_after : RateLimiter → ℕ → ℕ
  retry_after l tokens = max (f.ceil_u64 (f.div (f.sub one tokens) l.refill_per_second)) 1

  -- what `try_take` does with the entry of the address
  unfoldable pub take : RateLimiter → ℕ → BucketState → Result ℕ (Unit {0}) × BucketState
  unfolding retry_after
  take l now b =
      let tokens = refill l now b in
      if f.at_least tokens one
      then (ok tt, record { tokens = f.sub tokens one; last_update = now })
      else (err (retry_after l tokens), record { tokens = tokens; last_update = now })

  -- `entry(ip).or_insert(…)`
  abbrev pub entry : RateLimiter → ℕ → Option BucketState → BucketState
  entry l now none = record { tokens = l.capacity; last_update = now }
  entry l now (some b) = b

  unfoldable pub take_entry : String → ℕ → RateLimiter → Result ℕ (Unit {0}) × RateLimiter
  unfolding take bucket_of put_bucket
  take_entry ip now l =
      let (answer, b) = take l now (entry l now (bucket_of ip l.buckets)) in
      (answer, record l { buckets = put_bucket ip b l.buckets })

  unfoldable pub evict_amortized : ℕ → RateLimiter → RateLimiter
  unfolding evict_stale_locked
  evict_amortized now l =
      let count = (l.call_count + 1) % 18_446_744_073_709_551_616 in
      record l {
        call_count = count;
        buckets =
            if eqb (count % evict_every_n_calls) 0
            then evict_stale_locked l.window now l.buckets
            else l.buckets;
      }

  unfoldable pub try_take : String → ℕ → RateLimiter → Result ℕ (Unit {0}) × RateLimiter
  unfolding evict_amortized take_entry
  try_take ip now l = take_entry ip now (evict_amortized now l)

  unfoldable pub too_many_requests_response : ℕ → Response
  too_many_requests_response retry_after = record {
    status = 429;
    retry_after = some retry_after;
    body = other "rate limit exceeded";
  }

  abbrev pub answer_taken : Next → Request → World → Result ℕ (Unit {0}) × RateLimiter → Limited
  answer_taken next request w (ok _, l) =
      let (response, v) = next request w in (response, some l, v)
  answer_taken next request w (err seconds, l) = (too_many_requests_response seconds, some l, w)

  -- `ip` is the address of `ConnectInfo`.
  unfoldable pub rate_limit_middleware :
      Bool → String → ℕ → Next → Request → Option RateLimiter → World → Limited
  unfolding try_take too_many_requests_response
  rate_limit_middleware dev_mode ip now next request none w =
      let (response, v) = next request w in (response, none, v)
  rate_limit_middleware dev_mode ip now next request (some l) w =
      if request.path == "/healthz" || dev_mode
      then (let (response, v) = next request w in (response, some l, v))
      else answer_taken next request w (try_take ip now l)
