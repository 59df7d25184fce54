-- ===== src/Prelude/Decimal.antt =====
-- How `format!` prints a number.
use Prim.Native.Nat.{ℕ, zero, suc, ◌/◌, ◌%◌, ◌<◌}
use Prim.Native.String.{String, [], ◌∷◌, char_at}
use mathlib.Core.Path.{◌≡◌, refl}
use mathlib.Core.Logic.{inl, inr}
use native.Mathlib.Omega.{arith}
use oidc_agent_compat.Prelude.Tests.{ltb, if◌then◌else◌, Bool-cases}

-- The decimal digits of a number before `out`; each round takes one unit of fuel and the last digit.
unfoldable pub digits : ℕ → ℕ → String → String
digits zero n out = out
digits (suc fuel) n out =
    let shown = char_at "0123456789" (n % 10) ∷ out in
    let rest = digits fuel (n / 10) shown in if ltb n 10 then shown else rest

unfoldable pub to_decimal : ℕ → String
unfolding digits
to_decimal n = digits (suc n) n []

-- Any fuel above the number gives the same digits.
pub digits_enough :
    (fuel more n : ℕ) (out : String) → n < fuel → n < more → digits fuel n out ≡ digits more n out
unfolding digits
digits_enough zero more n out h k = absurd (omega arith)
digits_enough (suc fuel) zero n out h k = absurd (omega arith)
digits_enough (suc fuel) (suc more) n out h k = elim (Bool-cases (ltb n 10)) [
  | inl last ↦ rw last refl
  | inr long ↦
      let large : 9 < n = ground arith in
      let shown = char_at "0123456789" (n % 10) ∷ out in
      rw long (digits_enough fuel more (n / 10) shown (omega arith) (omega arith))
]
