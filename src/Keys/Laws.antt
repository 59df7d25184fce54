-- ===== src/Keys/Laws.antt =====
-- Laws of crates/common/src/keys.rs.
use oidc_agent_compat.Prelude.{ℕ, ◌≡◌, refl, true, none, some, List, [], ◌∷◌, arith}
use oidc_agent_compat.Keys.{matches, extract_bearer}

pub matches_sound : (a b : List ℕ) → matches a b ≡ true → a ≡ b
unfolding matches
matches_sound [] [] h = refl
matches_sound (x ∷ a) (y ∷ b) h = ground (arith, matches_sound a b)
matches_sound [] (y ∷ b) h = cc
matches_sound (x ∷ a) [] h = cc

pub matches_refl : (a : List ℕ) → matches a a ≡ true
unfolding matches
matches_refl [] = refl
matches_refl (x ∷ a) = ground (arith, matches_refl a)

bearer_cases :
    (extract_bearer "Bearer oac_abc" ≡ some "oac_abc")
    × (extract_bearer "  BeArEr   oac_abc " ≡ some "oac_abc")
    × (extract_bearer "Basic xyz" ≡ none)
    × (extract_bearer "" ≡ none)
unfolding extract_bearer
bearer_cases = (refl, refl, refl, refl)
