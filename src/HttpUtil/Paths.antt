-- ===== src/HttpUtil/Paths.antt =====
-- What the checks of crates/common/src/http_util.rs let through.
use mathlib.Core.Option as Opt
use text.Mathlib.Text.{starts_with}
use oidc_agent_compat.Prelude.{
  ℕ, suc, String, ◌<>◌, ◌≡◌, refl, sym, ◌∙◌, ◌⊎◌, inl, inr, Bool, true, false, not, ◌||◌, ◌&&◌,
  Option, none, some, List, [], ◌∷◌, any, ltb, if◌then◌else◌, Bool-cases, Option-cases,
}
use oidc_agent_compat.Prelude.Text.{contains_text, has_char}
use oidc_agent_compat.Prelude.Decimal.{to_decimal}
use oidc_agent_compat.Prelude.Utf8.{as_bytes}
use oidc_agent_compat.Error.{Error, http, Result, ok, err}
use oidc_agent_compat.HttpUtil.{control_position, has_encoded_dots, check_control, sanitize_path}

-- no byte of the list is a control character
abbrev pub has_control : List ℕ → Bool
has_control bytes = any (λ b. ltb b 0x20) bytes

-- the path has none of the forms that the check is there to refuse
abbrev pub is_safe : String → Bool
is_safe path =
    not (contains_text ".." path)
    && (not (has_char b'\\' path)
        && (not (has_encoded_dots path)
            && (not (contains_text "//" path)
                && (not (starts_with path "http://" || starts_with path "https://")
                    && not (has_control (as_bytes path))))))

abbrev is_found : Option ℕ → Bool
is_found none = false
is_found (some _) = true

found_later : (o : Option ℕ) → is_found (Opt.map suc o) ≡ is_found o
found_later none = refl
found_later (some n) = refl

has_control-control_position :
    (bytes : List ℕ) → has_control bytes ≡ is_found (control_position bytes)
unfolding control_position
has_control-control_position [] = refl
has_control-control_position (b ∷ bytes) =
    let rest = has_control-control_position bytes in
    elim (Bool-cases (ltb b 0x20)) [
      | inl h ↦ rw h refl
      | inr h ↦ rw h (rest ∙ sym (found_later (control_position bytes)))
    ]

abbrev pub IsHttp : Error → Type 0
IsHttp e = (message : String) × (e ≡ http message)

control_lem :
    (path : String)
    → ((check_control path (control_position (as_bytes path)) ≡ ok path)
        × (has_control (as_bytes path) ≡ false))
      ⊎ ((message : String) × (check_control path (control_position (as_bytes path))
            ≡ err (http message))
          × (has_control (as_bytes path) ≡ true))
unfolding check_control
control_lem path = elim (Option-cases (control_position (as_bytes path))) [
  | inl e ↦ inl (rw e refl, rw (has_control-control_position (as_bytes path), e) refl)
  | inr (pos, e) ↦ inr (
    "path contains control character at byte " <> to_decimal pos,
    rw e refl,
    rw (has_control-control_position (as_bytes path), e) refl,
  )
]

-- the sequence of checks, each with its message
checks_lem :
    (a b c d e : Bool) (m n o p q : String) {f : Bool} {path : String} {last : Result Error String}
    → ((last ≡ ok path) × (f ≡ false))
      ⊎ ((message : String) × (last ≡ err (http message)) × (f ≡ true))
    → let r : Result Error String =
        if a
        then err (http m)
        else if b
        then err (http n)
        else if c
        then err (http o)
        else if d
        then err (http p)
        else if e
        then err (http q)
        else last in
      let safe : Bool = not a && (not b && (not c && (not d && (not e && not f)))) in
      ((r ≡ ok path) × (safe ≡ true))
      ⊎ ((message : String) × (r ≡ err (http message)) × (safe ≡ false))
checks_lem true b c d e m n o p q h = inr (_, refl, refl)
checks_lem false true c d e m n o p q h = inr (_, refl, refl)
checks_lem false false true d e m n o p q h = inr (_, refl, refl)
checks_lem false false false true e m n o p q h = inr (_, refl, refl)
checks_lem false false false false true m n o p q h = inr (_, refl, refl)
checks_lem false false false false false m n o p q (inl (same, f)) = inl (same, rw f refl)
checks_lem false false false false false m n o p q (inr (message, bad, f)) =
    inr (message, bad, rw f refl)

-- A path is either returned as it is, if it has no "..", not even with encoded dots, no backslash,
-- no "//", no control character and is no absolute URL, or refused with an HTTP error.
pub sanitize_path_lem :
    (path : String)
    → ((sanitize_path path ≡ ok path) × (is_safe path ≡ true))
      ⊎ ((message : String) × (sanitize_path path ≡ err (http message)) × (is_safe path ≡ false))
unfolding sanitize_path
sanitize_path_lem path =
    checks_lem (contains_text ".." path) (has_char b'\\' path) (has_encoded_dots path)
      (contains_text "//" path) (starts_with path "http://" || starts_with path "https://")
      ("path contains '..': " <> path) ("path contains backslash: " <> path)
      ("path contains encoded '..': " <> path) ("path contains '//': " <> path)
      ("path is absolute URL: " <> path) (control_lem path)
