-- ===== src/Keys.antt =====
-- crates/common/src/keys.rs: local keys, their hashes, and the bearer token of a header.
-- A key hash is its list of bytes. The constant-time comparison is an equality of bytes.
pub mod Laws
use oidc_agent_compat.Prelude.{
  ℕ, suc, String, ◌<>◌, ◌==◌, Bool, true, false, ◌&&◌, Option, none, some, List, [], ◌∷◌, length,
  eqb, if◌then◌else◌,
}
use oidc_agent_compat.Prelude.Text.{trim, split_whitespace, eq_ignore_ascii_case}
use oidc_agent_compat.External.{External}
use oidc_agent_compat.World.{World, Exec}
use oidc_agent_compat.Error.{ok}

abbrev pub key_prefix : String
key_prefix = "oac_"

-- `LocalKey::generate`: the encoding of 32 random bytes, behind the prefix
unfoldable pub generate {ℓ} : {E : Type ℓ} → Exec E String
generate w = (ok (key_prefix <> w.secrets w.drawn), record w { drawn = suc w.drawn })

-- `KeyHash::from_hash_bytes`; `none` is the error for a wrong length
unfoldable pub from_hash_bytes : List ℕ → Option (List ℕ)
from_hash_bytes bytes = if eqb (length bytes) 32 then some bytes else none

-- `KeyHash::matches`
unfoldable pub matches : List ℕ → List ℕ → Bool
matches [] [] = true
matches (a ∷ xs) (b ∷ ys) = eqb a b && matches xs ys
matches _ _ = false

unfoldable pub extract_bearer : String → Option String
unfolding trim split_whitespace eq_ignore_ascii_case
extract_bearer header_value = elim (split_whitespace (trim header_value)) [
  | none ↦ none
  | some (scheme, rest) ↦
      if eq_ignore_ascii_case scheme "Bearer"
      then (let token = trim rest in if token == "" then none else some token)
      else none
]
