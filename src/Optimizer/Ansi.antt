-- ===== src/Optimizer/Ansi.antt =====
-- crates/central/src/optimizer.rs: the removal of terminal escape sequences.
pub mod Segments
use Prim.Native.Char.{Char, code}
use Prim.Native.String.{[], ◌∷◌}
use oidc_agent_compat.Prelude.{ℕ, String, Bool, leb, eqb, ◌&&◌, if◌then◌else◌}

-- `('@'..='~').contains(&c)`
unfoldable pub is_final : Char → Bool
is_final c = leb 0x40 (code c) && leb (code c) 0x7e

-- ESC followed by `[`
unfoldable pub is_introducer : Char → Char → Bool
is_introducer c d = eqb (code c) 0x1b && eqb (code d) 0x5b

-- `skip_sequence` is the inner loop, after the introducer.
unfoldable mutual
  unfolding is_introducer is_final

  pub strip_ansi_escapes : String → String
  strip_ansi_escapes [] = []
  strip_ansi_escapes (c ∷ []) = c ∷ []
  strip_ansi_escapes (c ∷ d ∷ s) =
      let kept = strip_ansi_escapes (d ∷ s) in
      if is_introducer c d then skip_sequence s else c ∷ kept

  pub skip_sequence : String → String
  skip_sequence [] = []
  skip_sequence (c ∷ s) =
      let rest = skip_sequence s in if is_final c then strip_ansi_escapes s else rest
