-- ===== src/Pricing.antt =====
-- crates/central/src/pricing.rs: the prices of models, configured or fetched from providers. An f64 is
-- its 64 bits; its arithmetic is a parameter.
pub mod Overrides
use mathlib.Core.Option as Opt
use oidc_agent_compat.Prelude.{
  ℕ, suc, ◌+◌, ◌≤◌, String, ◌<>◌, ◌==◌, Bool, true, false, ◌&&◌, Option, none, some, List, [], ◌∷◌,
  leb, if◌then◌else◌, ltb, eqb,
}
use oidc_agent_compat.Prelude.Int.{ℤ, pos}
use oidc_agent_compat.Prelude.Text.{trim_end_char}
use oidc_agent_compat.Error.{Error, http, Result, ok, err}
use oidc_agent_compat.Float.{Float}
use oidc_agent_compat.Entity.{Provider}
use oidc_agent_compat.External.{External, Json, string, number, array, Items, nil, cons}
use oidc_agent_compat.Json.{get, as_str}
use oidc_agent_compat.World.{Exec, pure, raise, ◌>>=◌, attempt, map_err}
use oidc_agent_compat.Providers.{list_providers}
use oidc_agent_compat.Providers.Keys.{ResolvedProviderKey, resolve_key}

pub record ModelPrice : Type 0 where
  pub input_per_1k_usd : ℕ
  pub output_per_1k_usd : ℕ

pub data PriceSource : Type 0 where
  fetched : PriceSource
  override : PriceSource

pub record PricedModel : Type 0 where
  pub price : ModelPrice
  pub source : PriceSource

-- a model of `PricingConfig`
pub record ModelPriceConfig : Type 0 where
  pub model : String
  pub input_per_1k_usd : ℕ
  pub output_per_1k_usd : ℕ

-- a hash map from models; its keys are different
abbrev pub PriceMap : Type 0 → Type 0
PriceMap P = List (String × P)

abbrev pub PriceTable : Type 0
PriceTable = PriceMap PricedModel

module _ {P : Type 0} where
  unfoldable pub price_of : String → PriceMap P → Option P
  price_of model [] = none
  price_of model ((m, p) ∷ prices) =
      let later = price_of model prices in if m == model then some p else later

  unfoldable pub insert_price : String → P → PriceMap P → PriceMap P
  insert_price model p [] = (model, p) ∷ []
  insert_price model p ((m, q) ∷ prices) =
      let later = insert_price model p prices in
      if m == model then (m, p) ∷ prices else (m, q) ∷ later

-- the loop of `PriceTable::from_config`
unfoldable pub insert_config : List ModelPriceConfig → PriceTable → PriceTable
unfolding insert_price
insert_config [] prices = prices
insert_config (m ∷ models) prices = insert_config models (
    insert_price m.model
      (record {
        price = record {
          input_per_1k_usd = m.input_per_1k_usd;
          output_per_1k_usd = m.output_per_1k_usd;
        };
        source = override;
      })
      prices)

unfoldable pub from_config : List ModelPriceConfig → PriceTable
unfolding insert_config
from_config models = insert_config models []

abbrev pub or_zero : Option ℤ → ℤ
or_zero none = pos 0
or_zero (some n) = n

unfoldable pub compute_cost :
    Float → PriceTable → String → (prompt_tokens completion_tokens : Option ℤ) → ℕ
unfolding price_of
compute_cost f prices model prompt_tokens completion_tokens = elim (price_of model prices) [
  | none ↦ f.of_int (pos 0)
  | some entry ↦
      let thousand = f.of_int (pos 1000) in
      let prompt = f.of_int (or_zero prompt_tokens) in
      let completion = f.of_int (or_zero completion_tokens) in
      f.add (f.mul (f.div prompt thousand) entry.price.input_per_1k_usd)
        (f.mul (f.div completion thousand) entry.price.output_per_1k_usd)
]

-- `and_then(as_str).and_then(parse)` of a field, and `and_then(as_f64)`
unfoldable pub parsed_price : Float → Option Json → Option ℕ
parsed_price f (some (string s)) = f.parse s
parsed_price f _ = none

unfoldable pub numeric_price : Float → Option Json → Option ℕ
numeric_price f (some (number s)) = f.of_number s
numeric_price f _ = none

-- prices per thousand tokens, if both prices per token are known
unfoldable pub per_1k : Float → Option ℕ → Option ℕ → Option ModelPrice
per_1k f (some p) (some c) = some (record {
  input_per_1k_usd = f.mul p (f.of_int (pos 1000));
  output_per_1k_usd = f.mul c (f.of_int (pos 1000));
})
per_1k f _ _ = none

abbrev pub or_else : Option ModelPrice → Option ModelPrice → Option ModelPrice
or_else none other = other
or_else (some p) other = some p

unfoldable pub pricing_of : Float → Json → Option ModelPrice
unfolding per_1k parsed_price numeric_price get
pricing_of f pricing =
    or_else
      (per_1k f (parsed_price f (get "prompt" pricing)) (parsed_price f (get "completion" pricing)))
      (per_1k f (numeric_price f (get "prompt" pricing))
        (numeric_price f (get "completion" pricing)))

-- the id and the price of an element of the list, if it has both
unfoldable pub priced_entry : Float → Json → Option (String × ModelPrice)
unfolding pricing_of get as_str
priced_entry f model = elim (get "id" model) [
  | none ↦ none
  | some v ↦ elim (as_str v) [
    | none ↦ none
    | some id ↦ elim (get "pricing" model) [
      | none ↦ none
      | some pricing ↦ Opt.map (λ (p : ModelPrice). (id, p)) (pricing_of f pricing)
    ]
  ]
]

unfoldable pub insert_model_price :
    Option (String × ModelPrice) → PriceMap ModelPrice → PriceMap ModelPrice
unfolding insert_price
insert_model_price none result = result
insert_model_price (some (id, p)) result = insert_price id p result

-- the loop of `parse_models_response`
unfoldable pub parse_models : Float → Items → PriceMap ModelPrice → PriceMap ModelPrice
unfolding priced_entry insert_model_price
parse_models f nil result = result
parse_models f (cons model models) result =
    parse_models f models (insert_model_price (priced_entry f model) result)

unfoldable pub parse_models_response : Float → Json → PriceMap ModelPrice
unfolding parse_models get
parse_models_response f body = elim (get "data" body) [
  | some (array models) ↦ parse_models f models []
  | _ ↦ []
]

abbrev pub is_override : Option PricedModel → Bool
is_override (some entry) = elim entry.source [ override ↦ true | fetched ↦ false ]
is_override none = false

-- the loop that merges what was fetched, in any order, and counts what it inserts
unfoldable pub merge_fetched : PriceMap ModelPrice → PriceTable → PriceTable × ℕ
unfolding price_of insert_price
merge_fetched [] prices = (prices, 0)
merge_fetched ((model, price) ∷ more) prices =
    let kept = merge_fetched more prices in
    if is_override (price_of model prices)
    then kept
    else let (merged, count) =
        merge_fetched more
          (insert_price model (record { price = price; source = fetched }) prices) in
      (merged, suc count)

-- the status and the body, which is `none` where it is no JSON; an error is that of the HTTP client
abbrev pub ModelsClient : Type 0
ModelsClient = (url : String) → (bearer : Option String) → Exec String (ℕ × Option Json)

abbrev pub fetch_error : String → Error
fetch_error e = http ("fetch pricing: " <> e)

module _ (f : Float) (x : External) (client : ModelsClient) where
  unfoldable pub merge_body : PriceTable → Option Json → Exec Error (PriceTable × ℕ)
  unfolding parse_models_response merge_fetched
  merge_body prices none = raise (http "fetch pricing: parse JSON")
  merge_body prices (some body) = pure (merge_fetched (parse_models_response f body) prices)

  unfoldable pub merge_reply : PriceTable → ℕ × Option Json → Exec Error (PriceTable × ℕ)
  unfolding merge_body
  merge_reply prices (status, body) =
      if leb 200 status && ltb status 300
      then merge_body prices body
      else raise (http "fetch pricing: backend returned an error status")

  unfoldable pub fetch_from_backend :
      String → Option String → PriceTable → Exec Error (PriceTable × ℕ)
  unfolding merge_reply trim_end_char
  fetch_from_backend base_url bearer prices = do
    reply ← map_err fetch_error (client (trim_end_char b'/' base_url <> "/v1/models") bearer)
    merge_reply prices reply

  -- `.ok().flatten()`, and the secret as the bearer
  abbrev pub key_bearer : Result Error (Option ResolvedProviderKey) → Option String
  key_bearer (ok (some key)) = some key.secret
  key_bearer (ok none) = none
  key_bearer (err e) = none

  -- what a fetch leaves of the table
  abbrev pub table_after : PriceTable → Result Error (PriceTable × ℕ) → PriceTable
  table_after prices (ok (merged, count)) = merged
  table_after prices (err e) = prices

  -- the loop over the providers
  unfoldable pub refresh_all : List Provider → PriceTable → Exec Error PriceTable
  unfolding fetch_from_backend
  refresh_all [] prices = pure prices
  refresh_all (p ∷ providers) prices =
      if p.enabled
      then (do
        key ← attempt (resolve_key x [] [] p.id)
        outcome ← attempt (fetch_from_backend p.base_url (key_bearer key) prices)
        refresh_all providers (table_after prices outcome))
      else refresh_all providers prices

  unfoldable pub refresh_listed : PriceTable → Result Error (List Provider) → Exec Error PriceTable
  unfolding refresh_all
  refresh_listed prices (ok providers) = refresh_all providers prices
  refresh_listed prices (err e) = pure prices

  unfoldable pub refresh_provider_prices_once : PriceTable → Exec Error PriceTable
  unfolding refresh_listed
  refresh_provider_prices_once prices = do
    providers ← attempt list_providers
    refresh_listed prices providers
