-- ===== src/Mcp/Hub/RoundTrip.antt =====
-- Which names of crates/mcp/src/hub.rs split into the server and the tool that they were joined from.
use Prim.Native.Char.{Char, code}
use Prim.Native.String.{[], ◌∷◌}
use text.Mathlib.TextLemmas.{nil-append, cons-append, append_assoc}
use oidc_agent_compat.Prelude.{
  String, ◌<>◌, ◌≡◌, refl, ap, ◌∙◌, sym, Bool, false, Option, none, some, eqb, arith,
}
use oidc_agent_compat.Mcp.Hub.{
  separator, join_tool_name, after_underscore, after_separator, first_split, split_tool_name,
}

abbrev underscore : Char
underscore = "_"

-- the text ends with an underscore
unfoldable pub ends_open : String → Bool
ends_open [] = false
ends_open (c ∷ []) = eqb (code c) b'_'
ends_open (c ∷ d ∷ s) = ends_open (d ∷ s)

joined : (tool : String) → separator <> tool ≡ underscore ∷ underscore ∷ tool
joined tool =
    cons-append underscore (underscore ∷ []) tool
    ∙ ap (λ s. underscore ∷ s)
        (cons-append underscore [] tool ∙ ap (λ s. underscore ∷ s) (nil-append tool))

first_split-none :
    (c : Char) (o : Option String) (later : Option (String × String))
    → first_split c o later ≡ none
    → (o ≡ none) × (later ≡ none)
first_split-none c none none h = (refl, refl)
first_split-none c none (some (a, b)) h = cc h
first_split-none c (some s) later h = cc h

split_step :
    (c : Char) (s : String)
    → split_tool_name (c ∷ s) ≡ first_split c (after_separator (c ∷ s)) (split_tool_name s)
unfolding split_tool_name
split_step c s = refl

-- whether there is a separator in front depends on two characters
after_separator_far :
    (c d : Char) (s t : String)
    → after_separator (c ∷ d ∷ s) ≡ none
    → after_separator (c ∷ d ∷ t) ≡ none
unfolding after_separator after_underscore
after_separator_far c d s t h = ground arith

after_separator_last :
    (c : Char) (s : String) → eqb (code c) b'_' ≡ false → after_separator (c ∷ s) ≡ none
unfolding after_separator
after_separator_last c s h = ground arith

split_pair : (tool : String) → split_tool_name (underscore ∷ underscore ∷ tool) ≡ some ([], tool)
unfolding split_tool_name after_separator after_underscore
split_pair tool = refl

split_joined :
    (server tool : String)
    → split_tool_name server ≡ none
    → ends_open server ≡ false
    → split_tool_name (server <> (underscore ∷ underscore ∷ tool)) ≡ some (server, tool)
unfolding ends_open
split_joined [] tool whole closed = ap split_tool_name (nil-append _) ∙ split_pair tool
split_joined (c ∷ []) tool whole closed =
    let x = underscore ∷ underscore ∷ tool in
    ap split_tool_name (cons-append c [] x ∙ ap (λ s. c ∷ s) (nil-append x))
    ∙ split_step c x
    ∙ rw (after_separator_last c x closed, split_pair tool) refl
split_joined (c ∷ d ∷ s) tool whole closed =
    let x = underscore ∷ underscore ∷ tool in
    let (apart, inner) =
      first_split-none c (after_separator (c ∷ d ∷ s)) (split_tool_name (d ∷ s))
        (sym (split_step c (d ∷ s)) ∙ whole) in
    let here : after_separator (c ∷ ((d ∷ s) <> x)) ≡ none =
      rw (cons-append d s x) (after_separator_far c d s (s <> x) apart) in
    ap split_tool_name (cons-append c (d ∷ s) x)
    ∙ split_step c ((d ∷ s) <> x)
    ∙ rw (here, split_joined (d ∷ s) tool inner closed) refl

-- A joined name splits into the server and the tool that it was joined from, if the server's id
-- neither holds the separator nor ends with an underscore.
pub split-join_tool_name :
    (server tool : String)
    → split_tool_name server ≡ none
    → ends_open server ≡ false
    → split_tool_name (join_tool_name server tool) ≡ some (server, tool)
unfolding join_tool_name
split-join_tool_name server tool whole closed =
    rw (joined tool) (split_joined server tool whole closed)

-- A server whose id ends with an underscore, which the check of ids allows, has its tools routed to
-- the server without the underscore.
pub split-join_tool_name_open :
    (server tool : String)
    → split_tool_name server ≡ none
    → ends_open server ≡ false
    → split_tool_name (join_tool_name (server <> "_") tool) ≡ some (server, underscore ∷ tool)
unfolding join_tool_name
split-join_tool_name_open server tool whole closed =
    rw
      (
        joined tool,
        append_assoc server "_" (underscore ∷ underscore ∷ tool),
        cons-append underscore [] (underscore ∷ underscore ∷ tool),
        nil-append (underscore ∷ underscore ∷ tool),
      )
      (split_joined server (underscore ∷ tool) whole closed)
