-- ===== src/Optimizer/Budget/Turns.antt =====
-- Which turns crates/central/src/optimizer.rs keeps when a request exceeds its budget of tokens.
use mathlib.Core.List.Sublist
use mathlib.Core.List.{Sublist, reverse}
use oidc_agent_compat.Prelude.{ℕ, ◌+◌, ◌≤◌, Bool, ◌≡◌, ◌⊎◌, List, [], ◌++◌}
use oidc_agent_compat.External.{Json}
use oidc_agent_compat.Optimizer.Budget.{total_tokens}

-- What the loop adds before a kept turn: some of the older turns, in their order, if they fit.
abbrev Adds : ℕ → ℕ → List Json → List Json → ℕ × List Json × Bool → Type 0
Adds budget sum tail older (total, result, _) =
    (front : List Json) × (result ≡ front ++ tail)
    × Sublist front (reverse older)
    × (total ≡ sum + total_tokens front)
    × ((total ≤ budget) ⊎ (front ≡ []))
