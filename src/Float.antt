-- ===== src/Float.antt =====
-- The arithmetic of f64, which the price table and the rate limiter of crates/central/src use. A value
-- is its 64 bits, and the operations, which round, are a parameter.
use oidc_agent_compat.Prelude.{ℕ, String, Bool, Option}
use oidc_agent_compat.Prelude.Int.{ℤ}

pub record Float : Type 0 where
  pub of_int : ℤ → ℕ
  pub add : ℕ → ℕ → ℕ
  pub sub : ℕ → ℕ → ℕ
  pub mul : ℕ → ℕ → ℕ
  pub div : ℕ → ℕ → ℕ
  -- `f64::min`
  pub least : ℕ → ℕ → ℕ
  -- `a >= b`
  pub at_least : ℕ → ℕ → Bool
  -- `ceil() as u64`
  pub ceil_u64 : ℕ → ℕ
  -- `as_secs_f64` of a duration in nanoseconds
  pub as_secs : ℕ → ℕ
  -- `parse`, and `Value::as_f64` of a printed number
  pub parse : String → Option ℕ
  pub of_number : String → Option ℕ
