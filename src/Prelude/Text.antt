-- ===== src/Prelude/Text.antt =====
-- Text beyond what the library has: the functions of `str` that the program calls, by recursion on
-- the characters, and their laws.
use Prim.Native.Nat.{ℕ, ◌+◌, ◌<◌}
use Prim.Native.Char.{Char, code, len_utf8}
use Prim.Native.String.{String, [], ◌∷◌, ◌++◌, len}
use Prim.Native.String.len as native_len
use mathlib.Core.Bool.{Bool, true, false, ◌||◌, ◌&&◌}
use mathlib.Core.Path.{◌≡◌}
use mathlib.Core.Option.{Option, none, some}
use native.Mathlib.Omega.{arith}
use text.Mathlib.Text.{◌==◌, starts_with}
use text.Mathlib.TextLemmas.{nil-append, cons-append}
use text.Mathlib.TextPositions.{len_utf8-pos}
use oidc_agent_compat.Prelude.Tests.{eqb, leb, ltb, if◌then◌else◌}

-- `char::is_whitespace`: the Unicode property White_Space.
unfoldable pub is_whitespace : Char → Bool
is_whitespace c =
    let n = code c in
    leb 9 n && leb n 13
    || (eqb n 0x20
        || (eqb n 0x85
            || (eqb n 0xa0
                || (eqb n 0x1680
                    || (leb 0x2000 n && leb n 0x200a
                        || (eqb n 0x2028
                            || (eqb n 0x2029
                                || (eqb n 0x202f || (eqb n 0x205f || eqb n 0x3000)))))))))

unfoldable pub trim_start : String → String
unfolding is_whitespace
trim_start [] = []
trim_start (c ∷ s) = let rest = trim_start s in if is_whitespace c then rest else c ∷ s

-- `s.trim().is_empty()`
unfoldable pub is_blank : String → Bool
unfolding is_whitespace
is_blank [] = true
is_blank (c ∷ s) = is_whitespace c && is_blank s

-- `s.split_once(sep)` at a character
unfoldable pub split_once : ℕ → String → Option (String × String)
split_once sep [] = none
split_once sep (c ∷ s) =
    let rest = split_once sep s in
    if eqb (code c) sep
    then some ([], s)
    else elim rest [ none ↦ none | some (a, b) ↦ some (c ∷ a, b) ]

-- the text holds the character
unfoldable pub has_char : ℕ → String → Bool
has_char sep [] = false
has_char sep (c ∷ s) = eqb (code c) sep || has_char sep s

-- Splitting what was joined at a separator that the first part lacks gives the parts back.
pub split_once-append :
    (sep : Char) (a b : String)
    → has_char (code sep) a ≡ false
    → split_once (code sep) (a ++ (sep ∷ b)) ≡ some (a, b)
unfolding split_once has_char
split_once-append sep [] b h = rw nil-append (ground arith)
split_once-append sep (c ∷ a) b h = rw cons-append (ground (arith, split_once-append sep a b))

-- `s.trim_end()` and `s.trim()`
unfoldable pub trim_end : String → String
unfolding is_whitespace
trim_end [] = []
trim_end (c ∷ s) = let rest = trim_end s in if is_whitespace c && rest == [] then [] else c ∷ rest

unfoldable pub trim : String → String
unfolding trim_start trim_end
trim s = trim_end (trim_start s)

-- `s.split_once(char::is_whitespace)`
unfoldable pub split_whitespace : String → Option (String × String)
unfolding is_whitespace
split_whitespace [] = none
split_whitespace (c ∷ s) =
    let rest = split_whitespace s in
    if is_whitespace c
    then some ([], s)
    else elim rest [ none ↦ none | some (a, b) ↦ some (c ∷ a, b) ]

-- `c.to_ascii_lowercase()`, on code points
abbrev pub to_ascii_lower : ℕ → ℕ
to_ascii_lower n = if leb 65 n && leb n 90 then n + 32 else n

-- `a.eq_ignore_ascii_case(b)`
unfoldable pub eq_ignore_ascii_case : String → String → Bool
eq_ignore_ascii_case [] [] = true
eq_ignore_ascii_case (c ∷ s) (d ∷ t) =
    eqb (to_ascii_lower (code c)) (to_ascii_lower (code d)) && eq_ignore_ascii_case s t
eq_ignore_ascii_case _ _ = false

pub len-cons : (c : Char) (s : String) → len (c ∷ s) ≡ len_utf8 c + len s
len-cons c s = native_len.cons c s

pub len-cons_lt : (c : Char) (s : String) → len s < len (c ∷ s)
len-cons_lt c s = let (k, p) = len_utf8-pos c in rw len-cons (omega arith)

pub len-nil : len [] ≡ 0
len-nil = native_len.nil

-- `s.strip_prefix(prefix)`
unfoldable pub strip_prefix : String → String → Option String
strip_prefix [] s = some s
strip_prefix (c ∷ p) [] = none
strip_prefix (c ∷ p) (d ∷ s) =
    let rest = strip_prefix p s in if eqb (code c) (code d) then rest else none

-- `s.contains(part)`
unfoldable pub contains_text : String → String → Bool
contains_text part [] = starts_with [] part
contains_text part (c ∷ s) = starts_with (c ∷ s) part || contains_text part s

-- `s.trim_end_matches(c)`
unfoldable pub trim_end_char : ℕ → String → String
trim_end_char n [] = []
trim_end_char n (c ∷ s) =
    let rest = trim_end_char n s in if eqb (code c) n && rest == [] then [] else c ∷ rest

-- the order of texts, which is that of their UTF-8
unfoldable pub lt_text : String → String → Bool
lt_text [] [] = false
lt_text [] (d ∷ t) = true
lt_text (c ∷ s) [] = false
lt_text (c ∷ s) (d ∷ t) = ltb (code c) (code d) || eqb (code c) (code d) && lt_text s t
