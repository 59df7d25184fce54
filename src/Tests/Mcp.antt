-- ===== src/Tests/Mcp.antt =====
-- The laws of crates/mcp/src at concrete names and arguments.
use oidc_agent_compat.Prelude.{◌≡◌, refl, true, some}
use oidc_agent_compat.External.{Json, string, object, field, end}
use oidc_agent_compat.Mcp.Hub.{join_tool_name, split_tool_name, after_separator, after_underscore}
use oidc_agent_compat.Mcp.Hub.RoundTrip.{ends_open, split-join_tool_name}
use oidc_agent_compat.Mcp.Redact.{redact_sensitive_values}
use oidc_agent_compat.Mcp.Redact.Clean.{shows_no_secret, redact_sensitive_values_lem}

split-join_example :
    split_tool_name (join_tool_name "github" "list_files") ≡ some ("github", "list_files")
unfolding split_tool_name after_separator after_underscore ends_open
split-join_example = split-join_tool_name "github" "list_files" refl refl

abbrev arguments : Json
arguments =
    object
      (field "path" (string "/tmp") (field "auth" (object (field "token" (string "abc") end)) end))

redact_example :
    (shows_no_secret (redact_sensitive_values arguments) ≡ true)
    × (shows_no_secret arguments ≡ true → redact_sensitive_values arguments ≡ arguments)
redact_example = redact_sensitive_values_lem arguments
