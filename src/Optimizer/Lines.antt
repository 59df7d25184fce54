-- ===== src/Optimizer/Lines.antt =====
-- crates/central/src/optimizer.rs: the collapse of repeated lines, with the functions of the
-- standard library that it calls.
pub mod Folds
use Prim.Native.Char.{Char, code}
use Prim.Native.String.{[] as empty, ◌∷◌ as ◌+>◌, len}
use oidc_agent_compat.Prelude.{
  ℕ, zero, suc, ◌+◌, ◌-◌, ◌*◌, ◌/◌, ◌%◌, String, ◌==◌, ◌<>◌, Bool, true, false, List, [], ◌∷◌, ◌++◌,
  leb, ltb, eqb, ◌&&◌, if◌then◌else◌,
}
use oidc_agent_compat.Prelude.Text.{has_char}
use oidc_agent_compat.Prelude.Decimal.{to_decimal}

-- the first line with a character before it
unfoldable pub on_first : Char → List String → List String
on_first c [] = (c +> empty) ∷ []
on_first c (l ∷ ls) = (c +> l) ∷ ls

-- the next character is a line feed
unfoldable pub at_newline : String → Bool
at_newline empty = false
at_newline (c +> s) = eqb (code c) 10

-- `str::lines`: a line ends before "\n" or "\r\n"
unfoldable pub lines : String → List String
unfolding on_first at_newline
lines empty = []
lines (c +> s) =
    let rest = lines s in
    if eqb (code c) 10
    then empty ∷ rest
    else if eqb (code c) 13 && at_newline s
    then rest
    else on_first c rest

-- `join("\n")`
unfoldable pub join_lines : List String → String
join_lines [] = empty
join_lines (l ∷ []) = l
join_lines (l ∷ m ∷ ls) = l <> "\n" <> join_lines (m ∷ ls)

-- `format!("[×{run_len}] {current}")`
unfoldable pub marker : ℕ → String → String
unfolding to_decimal
marker run_len current = "[×" <> to_decimal run_len <> "] " <> current

unfoldable pub replicate : ℕ → String → List String
replicate zero l = []
replicate (suc n) l = l ∷ replicate n l

-- The bytes of the run with its line feeds. The products of the source saturate at 2⁶⁴, which the
-- length of a text in memory does not reach.
unfoldable pub literal_len : ℕ → String → ℕ
literal_len run_len current = run_len * len current + (run_len - 1)

-- what a run of equal lines adds to the collapsed lines and to the number of removed ones
unfoldable pub emit_run : ℕ → String → List String × ℕ
unfolding marker replicate literal_len
emit_run run_len current =
    if ltb 1 run_len
    then if leb (len (marker run_len current)) (literal_len run_len current)
      then (marker run_len current ∷ [], run_len - 1)
      else (replicate run_len current, 0)
    else (current ∷ [], 0)

unfoldable pub prepend : List String × ℕ → List String × ℕ → List String × ℕ
prepend (first, n) (more, k) = (first ++ more, n + k)

-- The two loops: `current` is the line of the run and `run_len` the number of its lines so far.
unfoldable pub collapse_runs : ℕ → String → List String → List String × ℕ
unfolding emit_run prepend
collapse_runs run_len current [] = prepend (emit_run run_len current) ([], 0)
collapse_runs run_len current (l ∷ ls) = elim (l == current) [
  | true ↦ collapse_runs (suc run_len) current ls
  | false ↦ prepend (emit_run run_len current) (collapse_runs 1 l ls)
]

unfoldable pub collapse_lines : List String → List String × ℕ
unfolding collapse_runs
collapse_lines [] = ([], 0)
collapse_lines (l ∷ ls) = collapse_runs 1 l ls

-- the text after the loop
unfoldable pub join_removed : String → List String × ℕ → String × ℕ
unfolding join_lines
join_removed content (collapsed, zero) = (content, 0)
join_removed content (collapsed, suc removed) = (join_lines collapsed, suc removed)

unfoldable pub collapse_repeated_lines : String → String × ℕ
unfolding lines collapse_lines join_removed has_char
collapse_repeated_lines content =
    if has_char 10 content
    then join_removed content (collapse_lines (lines content))
    else (content, 0)
