-- ===== src/Prelude/Utf8.antt =====
-- UTF-8, as `str::from_utf8` and `String::from_utf8_lossy` decode it.
use Prim.Native.Nat.{ℕ, zero, suc, ◌+◌, ◌-◌, ◌*◌, ◌/◌, ◌%◌, Ordering, compare}
use Prim.Native.Char.{Char, char, code, IsLt}
use Prim.Native.String.{String, [] as empty, ◌∷◌ as ◌+>◌}
use mathlib.Core.Bool.{Bool, true, false, ◌&&◌}
use mathlib.Core.Path.{◌≡◌, refl}
use mathlib.Core.Option.{Option, none, some}
use mathlib.Core.List.{List, [], ◌∷◌}
use oidc_agent_compat.Prelude.Tests.{ltb, leb, eqb, if◌then◌else◌}

-- the type that says of three comparisons that a number is a scalar value
abbrev Both : Ordering → Ordering → Type 0
Both Ordering.lt o = IsLt o
Both Ordering.eq _ = ⊥
Both Ordering.gt _ = ⊥

abbrev Scalar : Ordering → Ordering → Ordering → Type 0
Scalar Ordering.lt _ _ = Unit
Scalar Ordering.eq o p = Both o p
Scalar Ordering.gt o p = Both o p

abbrev is_lt_proof : (o : Ordering) → Option (IsLt o)
is_lt_proof Ordering.lt = some tt
is_lt_proof _ = none

abbrev both_proof : (o p : Ordering) → Option (Both o p)
both_proof Ordering.lt p = is_lt_proof p
both_proof Ordering.eq p = none
both_proof Ordering.gt p = none

abbrev scalar_proof : (o p q : Ordering) → Option (Scalar o p q)
scalar_proof Ordering.lt p q = some tt
scalar_proof Ordering.eq p q = both_proof p q
scalar_proof Ordering.gt p q = both_proof p q

-- U+FFFD
abbrev pub replacement : Char
replacement = char 0xfffd tt

abbrev with_proof :
    (n : ℕ) → Option (Scalar (compare n 55296) (compare 57343 n) (compare n 1114112)) → Char
with_proof n none = replacement
with_proof n (some p) = char n p

-- The character with a number; what the decoder below gives it is a scalar value.
unfoldable pub to_char : ℕ → Char
to_char n = with_proof n (scalar_proof (compare n 55296) (compare 57343 n) (compare n 1114112))

-- What a byte at the start of a character means: a character, an error, or that `k + 1` more bytes
-- follow, the first of them from `low` to `high`.
pub data Start : Type 0 where
  whole : ℕ → Start
  wrong : Start
  opening : (k bits low high : ℕ) → Start

abbrev within : ℕ → ℕ → ℕ → Bool
within low high b = leb low b && leb b high

unfoldable pub start : ℕ → Start
start b =
    if ltb b 0x80
    then whole b
    else if within 0xc2 0xdf b
    then opening 0 (b - 0xc0) 0x80 0xbf
    else if eqb b 0xe0
    then opening 1 0 0xa0 0xbf
    else if eqb b 0xed
    then opening 1 0xd 0x80 0x9f
    else if within 0xe1 0xef b
    then opening 1 (b - 0xe0) 0x80 0xbf
    else if eqb b 0xf0
    then opening 2 0 0x90 0xbf
    else if eqb b 0xf4
    then opening 2 4 0x80 0x8f
    else if within 0xf1 0xf3 b
    then opening 2 (b - 0xf0) 0x80 0xbf
    else wrong

-- The characters of the bytes, with `none` for each longest part of a character that does not
-- become one. `decode_more` is inside a character.
unfoldable mutual
  unfolding start

  pub decode : List ℕ → List (Option ℕ)
  decode [] = []
  decode (b ∷ bytes) = elim (start b) [
    | whole n ↦ some n ∷ decode bytes
    | wrong ↦ none ∷ decode bytes
    | opening k bits low high ↦ decode_more k bits low high bytes
  ]

  pub decode_more : (k bits low high : ℕ) → List ℕ → List (Option ℕ)
  decode_more k bits low high [] = none ∷ []
  decode_more k bits low high (b ∷ bytes) = elim (within low high b) [
    | false ↦ none ∷ elim (start b) [
      | whole n ↦ some n ∷ decode bytes
      | wrong ↦ none ∷ decode bytes
      | opening j other l h ↦ decode_more j other l h bytes
    ]
    | true ↦ elim k [
      | zero ↦ some (bits * 64 + (b - 0x80)) ∷ decode bytes
      | suc j ↦ decode_more j (bits * 64 + (b - 0x80)) 0x80 0xbf bytes
    ]
  ]

unfoldable pub lossy : List (Option ℕ) → String
unfolding to_char
lossy [] = empty
lossy (none ∷ rest) = replacement +> lossy rest
lossy (some n ∷ rest) = to_char n +> lossy rest

unfoldable pub strict : List (Option ℕ) → Option String
unfolding to_char
strict [] = some empty
strict (none ∷ rest) = none
strict (some n ∷ rest) = elim (strict rest) [ none ↦ none | some s ↦ some (to_char n +> s) ]

-- `String::from_utf8_lossy`
unfoldable pub from_utf8_lossy : List ℕ → String
unfolding decode lossy
from_utf8_lossy bytes = lossy (decode bytes)

-- `str::from_utf8(bytes).ok()`
unfoldable pub from_utf8 : List ℕ → Option String
unfolding decode strict
from_utf8 bytes = strict (decode bytes)

abbrev continuation : ℕ → ℕ
continuation n = 0x80 + n % 64

-- the bytes of a character before those that follow
unfoldable pub encode_char : ℕ → List ℕ → List ℕ
encode_char n rest =
    if ltb n 0x80
    then n ∷ rest
    else if ltb n 0x800
    then (0xc0 + n / 64) ∷ continuation n ∷ rest
    else if ltb n 0x10000
    then (0xe0 + n / 4096) ∷ continuation (n / 64) ∷ continuation n ∷ rest
    else (0xf0 + n / 262144)
      ∷ continuation (n / 4096)
      ∷ continuation (n / 64)
      ∷ continuation n
      ∷ rest

-- `as_bytes`
unfoldable pub as_bytes : String → List ℕ
unfolding encode_char
as_bytes empty = []
as_bytes (c +> s) = encode_char (code c) (as_bytes s)

round_trip : from_utf8 (as_bytes "aé€😀") ≡ some "aé€😀"
unfolding from_utf8 as_bytes
round_trip = refl

truncated : from_utf8_lossy (0x61 ∷ 0xe2 ∷ 0x82 ∷ 0x62 ∷ 0xff ∷ []) ≡ "a�b�"
unfolding from_utf8_lossy
truncated = refl
