-- ===== src/Mcp/Hub.antt =====
-- crates/mcp/src/hub.rs: the names under which the combined endpoint exposes the tools of servers.
pub mod RoundTrip
use Prim.Native.Char.{Char, code}
use Prim.Native.String.{[], ◌∷◌}
use oidc_agent_compat.Prelude.{String, ◌<>◌, Option, none, some, eqb, if◌then◌else◌}

-- `SERVER_TOOL_SEPARATOR`
abbrev pub separator : String
separator = "__"

unfoldable pub join_tool_name : String → String → String
join_tool_name server tool = server <> (separator <> tool)

-- `s.strip_prefix('_')`
unfoldable pub after_underscore : String → Option String
after_underscore [] = none
after_underscore (c ∷ s) = if eqb (code c) b'_' then some s else none

-- the text behind a separator at the front
unfoldable pub after_separator : String → Option String
unfolding after_underscore
after_separator [] = none
after_separator (c ∷ s) = if eqb (code c) b'_' then after_underscore s else none

abbrev pub with_char : Char → Option (String × String) → Option (String × String)
with_char c none = none
with_char c (some (a, b)) = some (c ∷ a, b)

abbrev pub first_split : Char → Option String → Option (String × String) → Option (String × String)
first_split c (some tool) later = some ([], tool)
first_split c none later = with_char c later

-- `name.find(SERVER_TOOL_SEPARATOR)`, with the texts before and behind it
unfoldable pub split_tool_name : String → Option (String × String)
unfolding after_separator
split_tool_name [] = none
split_tool_name (c ∷ s) =
    let later = split_tool_name s in first_split c (after_separator (c ∷ s)) later
