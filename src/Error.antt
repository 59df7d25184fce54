-- ===== src/Error.antt =====
-- crates/common/src/error.rs: the error values of both proxies, and results.
-- A variant that wraps an error of a library (sea-orm, reqwest, io, serde) carries its message.
use oidc_agent_compat.Prelude.{String, ◌<>◌, ◌≡◌, refl, ◌⊎◌, inl, inr}

pub data Error : Type 0 where
  config oidc database http crypto tls auth forbidden internal : String → Error
  db reqwest io serde : String → Error

-- `Display`
abbrev pub to_string : Error → String
to_string (config m) = "configuration error: " <> m
to_string (oidc m) = "oidc error: " <> m
to_string (database m) = "database error: " <> m
to_string (db m) = "database error: " <> m
to_string (http m) = "http error: " <> m
to_string (reqwest m) = "http error: " <> m
to_string (crypto m) = "crypto error: " <> m
to_string (tls m) = "tls error: " <> m
to_string (auth m) = "authentication error: " <> m
to_string (forbidden m) = "forbidden: " <> m
to_string (io m) = "io error: " <> m
to_string (serde m) = "serialization error: " <> m
to_string (internal m) = "internal error: " <> m

-- `Result<A, E>`
pub data Result {ℓ κ} (E : Type ℓ) (A : Type κ) : Type (ℓ ⊔ κ) where
  ok : A → Result E A
  err : E → Result E A

pub ok-injective {ℓ κ} :
    {E : Type ℓ} {A : Type κ} {a b : A} → ◌≡◌ {A = Result E A} (ok a) (ok b) → a ≡ b
ok-injective h = cc

pub Result-cases {ℓ κ} :
    {E : Type ℓ} {A : Type κ} (r : Result E A) → ((a : A) × (r ≡ ok a)) ⊎ ((e : E) × (r ≡ err e))
Result-cases (ok a) = inl (a, refl)
Result-cases (err e) = inr (e, refl)
