-- ===== src/Proxy/RateLimit/Eviction.antt =====
-- That rate_limit.rs forgets the addresses that were idle does not show in its answers.
use oidc_agent_compat.Prelude.{
  ℕ, ◌+◌, ◌-◌, ◌*◌, ◌≤◌, ◌%◌, String, ◌==◌, eq_iff, ◌≡◌, refl, sym, ap, ◌∙◌, Bool, true, false,
  Option, none, some, List, [], ◌∷◌, ltb, eqb, if◌then◌else◌, Bool-cases, inl, inr, arith,
}
use oidc_agent_compat.Prelude.Int.{pos}
use oidc_agent_compat.Error.{Result, ok, err}
use oidc_agent_compat.Float.{Float}
use oidc_agent_compat.Proxy.RateLimit.{
  BucketState, Buckets, RateLimiter, new, evict_after_windows, evict_every_n_calls, bucket_of,
  put_bucket, is_fresh, evict_stale_locked, one, refill, retry_after, take, entry, take_entry,
  evict_amortized, try_take,
}

-- the addresses of a table are different
abbrev Distinct : Buckets → Type 0
Distinct [] = Unit
Distinct ((i, b) ∷ xs) = (bucket_of i xs ≡ none) × Distinct xs

bucket_of-put_bucket :
    (ip j : String) (b : BucketState) (xs : Buckets)
    → bucket_of j (put_bucket ip b xs) ≡ (if ip == j then some b else bucket_of j xs)
unfolding bucket_of put_bucket
bucket_of-put_bucket ip j b [] = refl
bucket_of-put_bucket ip j b ((i, c) ∷ xs) =
    ground (arith, eq_iff i ip, eq_iff ip j, eq_iff i j, bucket_of-put_bucket ip j b xs)

put_bucket-Distinct :
    (ip : String) (b : BucketState) (xs : Buckets) → Distinct xs → Distinct (put_bucket ip b xs)
unfolding put_bucket bucket_of
put_bucket-Distinct ip b [] d = (refl, tt)
put_bucket-Distinct ip b ((i, c) ∷ xs) (new, d) = elim (Bool-cases (i == ip)) [
  | inl e ↦ rw e (new, d)
  | inr n ↦ rw n (
    ground (arith, bucket_of-put_bucket ip i b xs, eq_iff ip i, eq_iff i ip),
    put_bucket-Distinct ip b xs d,
  )
]

module _ (window now : ℕ) where
  -- what eviction leaves of an entry
  abbrev kept : Option BucketState → Option BucketState
  kept none = none
  kept (some b) = if ltb (now - b.last_update) (window * evict_after_windows) then some b else none

  evicted-none :
      (ip : String) (xs : Buckets)
      → bucket_of ip xs ≡ none
      → bucket_of ip (evict_stale_locked window now xs) ≡ none
  unfolding evict_stale_locked bucket_of
  evicted-none ip [] h = refl
  evicted-none ip ((i, b) ∷ xs) h = ground (arith, evicted-none ip xs)

  evict-Distinct : (xs : Buckets) → Distinct xs → Distinct (evict_stale_locked window now xs)
  unfolding evict_stale_locked
  evict-Distinct [] d = tt
  evict-Distinct ((i, b) ∷ xs) (new, d) = elim (Bool-cases (is_fresh window now (i, b))) [
    | inl e ↦ rw e (evicted-none i xs new, evict-Distinct xs d)
    | inr n ↦ rw n (evict-Distinct xs d)
  ]

  bucket_of-evict :
      (ip : String) (xs : Buckets)
      → Distinct xs
      → bucket_of ip (evict_stale_locked window now xs) ≡ kept (bucket_of ip xs)
  unfolding evict_stale_locked bucket_of
  bucket_of-evict ip [] d = refl
  bucket_of-evict ip ((i, b) ∷ xs) (new, d) =
      ground (arith, eq_iff i ip, evicted-none ip xs, bucket_of-evict ip xs d)

-- What f64 gives for the limiter: no value below zero comes up, and ten windows fill any bucket, as
-- does none a full one. Rounding is monotone, and each operation is off by much less than a tenth.
pub record Rounds (f : Float) (l : RateLimiter) : Type 0 where
  pub full_holds : f.at_least l.capacity (f.of_int (pos 0)) ≡ true
  pub stays_full :
      f.least (f.add l.capacity (f.mul (f.as_secs 0) l.refill_per_second)) l.capacity ≡ l.capacity
  pub fills :
      (tokens idle : ℕ)
      → f.at_least tokens (f.of_int (pos 0)) ≡ true
      → l.window * evict_after_windows ≤ idle
      → f.least (f.add tokens (f.mul (f.as_secs idle) l.refill_per_second)) l.capacity ≡ l.capacity
  pub refills :
      (tokens idle : ℕ)
      → f.at_least tokens (f.of_int (pos 0)) ≡ true
      → f.at_least
          (f.least (f.add tokens (f.mul (f.as_secs idle) l.refill_per_second)) l.capacity)
          (f.of_int (pos 0))
        ≡ true
  pub takes :
      (tokens : ℕ)
      → f.at_least tokens (one f) ≡ true
      → f.at_least (f.sub tokens (one f)) (f.of_int (pos 0)) ≡ true

-- calls at the given addresses and times
abbrev pub Calls : Type 0
Calls = List (String × ℕ)

-- the clock does not run backwards
abbrev pub InOrder : ℕ → Calls → Type 0
InOrder time [] = Unit
InOrder time ((ip, now) ∷ calls) = (time ≤ now) × InOrder now calls

abbrev pub answers :
    (String → ℕ → RateLimiter → Result ℕ (Unit {0}) × RateLimiter)
    → Calls
    → RateLimiter
    → List (Result ℕ (Unit {0}))
answers step [] l = []
answers step ((ip, now) ∷ calls) l =
    let (answer, l') = step ip now l in answer ∷ answers step calls l'

module _ (f : Float) (l : RateLimiter) (rounds : Rounds f l) where
  abbrev IsSound : BucketState → Type 0
  IsSound b = f.at_least b.tokens (f.of_int (pos 0)) ≡ true

  -- the entry of a table, and that of the table from which nothing is evicted
  abbrev Matches : ℕ → Option BucketState → Option BucketState → Type 0
  Matches time none none = Unit
  Matches time none (some b) = IsSound b × (l.window * evict_after_windows ≤ time - b.last_update)
  Matches time (some a) none = ⊥
  Matches time (some a) (some b) = (a ≡ b) × IsSound b × (b.last_update ≤ time)

  Matches-later :
      (time now : ℕ) → time ≤ now → (a b : Option BucketState) → Matches time a b → Matches now a b
  Matches-later time now h none none m = tt
  Matches-later time now h none (some b) (s, m) = (s, omega arith)
  Matches-later time now h (some a) none m = m
  Matches-later time now h (some a) (some b) (e, s, m) = (e, s, omega arith)

  kept-Matches :
      (now : ℕ) (a b : Option BucketState) → Matches now a b → Matches now (kept l.window now a) b
  kept-Matches now none b m = m
  kept-Matches now (some a) none m = absurd m
  kept-Matches now (some a) (some b) (e, s, m) = elim (Bool-cases (is_fresh l.window now ("", a))) [
    | inl t ↦ rw t (e, s, m)
    | inr n ↦ rw n (s, let same = ap (λ (c : BucketState). c.last_update) e in ground arith)
  ]

  -- what `take` does with the tokens that it finds
  abbrev outcome : ℕ → ℕ → Result ℕ (Unit {0}) × BucketState
  outcome now tokens =
      if f.at_least tokens (one f)
      then (ok tt, record { tokens = f.sub tokens (one f); last_update = now })
      else (err (retry_after f l tokens), record { tokens = tokens; last_update = now })

  take_lem : (now : ℕ) (b : BucketState) → take f l now b ≡ outcome now (refill f l now b)
  unfolding take
  take_lem now b = refl

  new_entry_full : (now : ℕ) → refill f l now (entry f l now none) ≡ l.capacity
  new_entry_full now =
      let passed : now - now ≡ 0 = omega arith in rw (refill, passed) rounds.stays_full

  -- the answer and the new entry are the same
  take-Matches :
      (now : ℕ) (a b : Option BucketState)
      → Matches now a b
      → take f l now (entry f l now a) ≡ take f l now (entry f l now b)
  take-Matches now none none m = refl
  take-Matches now none (some b) (s, m) =
      let filled = rounds.fills b.tokens (now - b.last_update) s m in
      take_lem now (entry f l now none)
      ∙ ap (outcome now) (new_entry_full now ∙ sym filled)
      ∙ sym (take_lem now b)
  take-Matches now (some a) none m = absurd m
  take-Matches now (some a) (some b) (e, s, m) = ap (λ (c : BucketState). take f l now c) e

  entry-IsSound : (now : ℕ) (a b : Option BucketState) → Matches now a b → IsSound (entry f l now b)
  entry-IsSound now a none m = rounds.full_holds
  entry-IsSound now none (some b) (s, m) = s
  entry-IsSound now (some a) (some b) (e, s, m) = s

  outcome-IsSound :
      (now tokens : ℕ) (b : Bool)
      → f.at_least tokens (one f) ≡ b
      → f.at_least tokens (f.of_int (pos 0)) ≡ true
      → IsSound (outcome now tokens).1 × ((outcome now tokens).1.last_update ≤ now)
  outcome-IsSound now tokens true e h = rw e (rounds.takes tokens e, omega arith)
  outcome-IsSound now tokens false e h = rw e (h, omega arith)

  taken-IsSound :
      (now : ℕ) (b : BucketState)
      → IsSound b
      → IsSound (take f l now b).1 × ((take f l now b).1.last_update ≤ now)
  taken-IsSound now b s = rw (take_lem now b) (
      outcome-IsSound now (refill f l now b) (f.at_least (refill f l now b) (one f)) refl
        (rounds.refills b.tokens (now - b.last_update) s))

  -- the limiter with other entries
  abbrev with_buckets : Buckets → ℕ → RateLimiter
  with_buckets xs count = record l { buckets = xs; call_count = count }

  abbrev Agrees : ℕ → Buckets → Buckets → Type 0
  Agrees time xs ys =
      Distinct xs × ((ip : String) → Matches time (bucket_of ip xs) (bucket_of ip ys))

  evict-Agrees :
      (now : ℕ) (b : Bool) (xs ys : Buckets)
      → Agrees now xs ys
      → Agrees now (if b then evict_stale_locked l.window now xs else xs) ys
  evict-Agrees now false xs ys h = h
  evict-Agrees now true xs ys (d, m) = (
    evict-Distinct l.window now xs d,
    λ ip.
        rw (bucket_of-evict l.window now ip xs d)
          (kept-Matches now (bucket_of ip xs) (bucket_of ip ys) (m ip)),
  )

  put-Agrees :
      (now : ℕ) (ip : String) (b : BucketState) (xs ys : Buckets)
      → IsSound b
      → b.last_update ≤ now
      → Agrees now xs ys
      → Agrees now (put_bucket ip b xs) (put_bucket ip b ys)
  put-Agrees now ip b xs ys s u (d, m) = (
    put_bucket-Distinct ip b xs d,
    λ j. rw (bucket_of-put_bucket ip j b xs, bucket_of-put_bucket ip j b ys) (chosen (ip == j) j),
  )
    where
      chosen :
          (c : Bool) (j : String)
          → Matches now
              (if c then some b else bucket_of j xs)
              (if c then some b else bucket_of j ys)
      chosen true j = (refl, s, u)
      chosen false j = m j

  -- the answer to a call, and the answers to the later ones
  abbrev then_answers :
      Calls → String → Buckets → ℕ → Result ℕ (Unit {0}) × BucketState → List (Result ℕ (Unit {0}))
  then_answers calls ip xs count t =
      t.0 ∷ answers (try_take f) calls (with_buckets (put_bucket ip t.1 xs) count)

  answers_agree :
      (calls : Calls) (time : ℕ) (xs ys : Buckets) (n m : ℕ)
      → Agrees time xs ys
      → InOrder time calls
      → answers (try_take f) calls (with_buckets xs n)
        ≡ answers (take_entry f) calls (with_buckets ys m)
  unfolding try_take evict_amortized take_entry take
  answers_agree [] time xs ys n m h order = refl
  answers_agree ((ip, now) ∷ calls) time xs ys n m (d, matches) (h, order) =
      let count = (n + 1) % 18_446_744_073_709_551_616 in
      let due = eqb (count % evict_every_n_calls) 0 in
      let kept_xs = if due then evict_stale_locked l.window now xs else xs in
      let later =
        evict-Agrees now due xs ys
          (d, λ j. Matches-later time now h (bucket_of j xs) (bucket_of j ys) (matches j)) in
      let here = later.1 ip in
      let same = take-Matches now (bucket_of ip kept_xs) (bucket_of ip ys) here in
      let b = entry f l now (bucket_of ip ys) in
      let (s, u) =
        taken-IsSound now b (entry-IsSound now (bucket_of ip kept_xs) (bucket_of ip ys) here) in
      let rest =
        answers_agree calls now (put_bucket ip (take f l now b).1 kept_xs)
          (put_bucket ip (take f l now b).1 ys) count m
          (put-Agrees now ip (take f l now b).1 kept_xs ys s u later) order in
      ap (then_answers calls ip kept_xs count) same
      ∙ ap (λ (more : List (Result ℕ (Unit {0}))). (take f l now b).0 ∷ more) rest

-- Where the arithmetic rounds as described, a new limiter answers every sequence of calls, at times
-- that do not run backwards, as one that never evicts a bucket.
pub answers-try_take :
    (f : Float) (capacity window : ℕ)
    → Rounds f (new f capacity window)
    → (calls : Calls) → InOrder 0 calls
    → answers (try_take f) calls (new f capacity window)
      ≡ answers (take_entry f) calls (new f capacity window)
unfolding new bucket_of
answers-try_take f capacity window rounds calls order =
    answers_agree f (new f capacity window) rounds calls 0 [] [] 0 0 (tt, λ ip. nothing ip) order
  where
    nothing :
        (ip : String)
        → Matches f (new f capacity window) rounds 0 (bucket_of ip []) (bucket_of ip [])
    nothing ip = tt
