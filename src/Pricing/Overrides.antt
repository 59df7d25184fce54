-- ===== src/Pricing/Overrides.antt =====
-- The prices that are configured in crates/central/src/pricing.rs, while others are fetched.
use oidc_agent_compat.Prelude.{
  ℕ, String, ◌<>◌, leb, ltb, ◌&&◌, ◌==◌, eq_iff, ◌≡◌, refl, ◌∙◌, Bool, true, false, Option, none,
  some, List, [], ◌∷◌, if◌then◌else◌, Bool-cases, arith, inl, inr,
}
use oidc_agent_compat.Prelude.Int.{ℤ}
use oidc_agent_compat.Prelude.Text.{trim_end_char}
use oidc_agent_compat.Error.{Error, Result, ok, err}
use oidc_agent_compat.Entity.{Provider}
use oidc_agent_compat.External.{External, Json}
use oidc_agent_compat.World.{World, continue, ◌>>=◌, attempt, map_err, relabel}
use oidc_agent_compat.Providers.{list_providers}
use oidc_agent_compat.Providers.Keys.{resolve_key}
use oidc_agent_compat.Float.{Float}
use oidc_agent_compat.Pricing.{
  ModelPrice, PriceMap, PriceTable, PricedModel, fetched, price_of, insert_price, is_override,
  merge_fetched, compute_cost, parse_models_response, ModelsClient, merge_body, merge_reply,
  fetch_from_backend, fetch_error, key_bearer, table_after, refresh_all, refresh_listed,
  refresh_provider_prices_once,
}

price_of-insert_price :
    (m n : String) (p : PricedModel) (t : PriceTable)
    → price_of m (insert_price n p t) ≡ (if n == m then some p else price_of m t)
unfolding price_of insert_price
price_of-insert_price m n p [] = refl
price_of-insert_price m n p ((k, q) ∷ t) =
    ground (arith, eq_iff n m, eq_iff k n, eq_iff k m, price_of-insert_price m n p t)

-- the configured prices of one table are those of another
abbrev pub Keeps : PriceTable → PriceTable → Type 0
Keeps t t' = (m : String) → is_override (price_of m t) ≡ true → price_of m t' ≡ price_of m t

Keeps-trans : (t u v : PriceTable) → Keeps t u → Keeps u v → Keeps t v
Keeps-trans t u v h k m o = let same = h m o in k m (rw same o) ∙ same

insert-Keeps :
    (n : String) (p : PricedModel) (t : PriceTable)
    → is_override (price_of n t) ≡ false
    → Keeps t (insert_price n p t)
insert-Keeps n p t free m o = elim (Bool-cases (n == m)) [
  | inl e ↦ let same = (eq_iff n m).0 e in let clash = rw same at free in ground (arith, clash, o)
  | inr d ↦ rw (price_of-insert_price m n p t, d) refl
]

merge_fetched-Keeps :
    (fresh : PriceMap ModelPrice) (t : PriceTable) → Keeps t (merge_fetched fresh t).0
unfolding merge_fetched
merge_fetched-Keeps [] t = λ m o. refl
merge_fetched-Keeps ((n, p) ∷ fresh) t = elim (Bool-cases (is_override (price_of n t))) [
  | inl e ↦ rw e (merge_fetched-Keeps fresh t)
  | inr d ↦ rw d (
      let t' = insert_price n (record { price = p; source = fetched }) t in
      Keeps-trans t t' (merge_fetched fresh t').0
        (insert-Keeps n (record { price = p; source = fetched }) t d)
        (merge_fetched-Keeps fresh t'))
]

module _ (f : Float) (x : External) (client : ModelsClient) where
  abbrev table : PriceTable → Result Error (PriceTable × ℕ) → PriceTable
  table t r = table_after f x client t r

  body-Keeps :
      (t : PriceTable) (body : Option Json) (w : World)
      → Keeps t (table t (merge_body f x client t body w).0)
  unfolding merge_body ◌>>=◌
  body-Keeps t none w m o = refl
  body-Keeps t (some body) w m o = merge_fetched-Keeps (parse_models_response f body) t m o

  status-Keeps :
      (b : Bool) (t : PriceTable) (status : ℕ) (body : Option Json) (w : World)
      → (leb 200 status && ltb status 300) ≡ b
      → Keeps t (table t (merge_reply f x client t (status, body) w).0)
  unfolding merge_reply ◌>>=◌
  status-Keeps true t status body w e = rw e (body-Keeps t body w)
  status-Keeps false t status body w e = rw e (λ m o. refl)

  reply-Keeps :
      (t : PriceTable) (r : Result String (ℕ × Option Json)) (w : World)
      → Keeps t (table t (continue (relabel fetch_error r) (merge_reply f x client t) w).0)
  reply-Keeps t (ok (status, body)) w =
      status-Keeps (leb 200 status && ltb status 300) t status body w refl
  reply-Keeps t (err e) w = λ m o. refl

  fetch_from_backend-Keeps :
      (t : PriceTable) (base_url : String) (bearer : Option String) (w : World)
      → Keeps t (table t (fetch_from_backend f x client base_url bearer t w).0)
  unfolding fetch_from_backend map_err ◌>>=◌
  fetch_from_backend-Keeps t base_url bearer w =
      let (r, v) = client (trim_end_char b'/' base_url <> "/v1/models") bearer w in
      reply-Keeps t r v

  -- a table that has the prices that are configured in another
  abbrev pub KeepsAll : PriceTable → Result Error PriceTable → Type 0
  KeepsAll t r = (t' : PriceTable) × (r ≡ ok t') × Keeps t t'

  refresh_all-Keeps :
      (providers : List Provider) (t : PriceTable) (w : World)
      → KeepsAll t (refresh_all f x client providers t w).0
  unfolding refresh_all attempt ◌>>=◌
  refresh_all-Keeps [] t w = (t, refl, λ m o. refl)
  refresh_all-Keeps (p ∷ providers) t w = elim (Bool-cases p.enabled) [
    | inr n ↦ rw n (refresh_all-Keeps providers t w)
    | inl e ↦
        let (key, u) = resolve_key x [] [] p.id w in
        let (outcome, v) =
          fetch_from_backend f x client p.base_url (key_bearer f x client key) t u in
        let (t', done, later) = refresh_all-Keeps providers (table t outcome) v in
        let kept = fetch_from_backend-Keeps t p.base_url (key_bearer f x client key) u in
        rw e (t', done, Keeps-trans t (table t outcome) t' kept later)
  ]

  listed-Keeps :
      (t : PriceTable) (r : Result Error (List Provider)) (w : World)
      → KeepsAll t (refresh_listed f x client t r w).0
  unfolding refresh_listed ◌>>=◌
  listed-Keeps t (ok providers) w = refresh_all-Keeps providers t w
  listed-Keeps t (err e) w = (t, refl, λ m o. refl)

  same_cost :
      (model : String) (prompt completion : Option ℤ) (t t' : PriceTable)
      → price_of model t' ≡ price_of model t
      → compute_cost f t' model prompt completion ≡ compute_cost f t model prompt completion
  unfolding compute_cost
  same_cost model prompt completion t t' h = rw (h, compute_cost) refl

  -- Whatever the providers and the database answer, a refresh of the prices ends with a table, and
  -- the cost of a request for a model whose price is configured is what it was before.
  pub refresh-compute_cost :
      (t : PriceTable) (w : World)
      → (t' : PriceTable) × ((refresh_provider_prices_once f x client t w).0 ≡ ok t')
        × ((model : String) (prompt completion : Option ℤ)
            → is_override (price_of model t) ≡ true
            → compute_cost f t' model prompt completion ≡ compute_cost f t model prompt completion)
  unfolding refresh_provider_prices_once attempt ◌>>=◌
  refresh-compute_cost t w =
      let (r, v) = list_providers w in
      let (t', done, kept) = listed-Keeps t r v in
      (t', done, λ model prompt completion o. same_cost model prompt completion t t' (kept model o))
