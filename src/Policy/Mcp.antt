-- ===== src/Policy/Mcp.antt =====
-- crates/central/src/policy.rs: the MCP tool policies of `PolicyStore`.
pub mod Laws
use mathlib.Core.Option as Opt
use text.Mathlib.Text.{starts_with}
use oidc_agent_compat.Prelude.{
  ℕ, String, ◌<>◌, ◌==◌, Bool, true, Option, none, some, List, [], ◌∷◌, ◌++◌, find, any, select,
  discard, update,
}
use oidc_agent_compat.Prelude.Text.{split_once}
use oidc_agent_compat.Error.{Error}
use oidc_agent_compat.Entity.{McpServerPolicy}
use oidc_agent_compat.External.{External}
use oidc_agent_compat.World.{
  World, Exec, pure, ◌>>=◌, ◌>>◌, query, execute, write, now_utc, new_v4, format_time,
}
use oidc_agent_compat.Policy.Merge.{contains, extend, permits}

-- the loop over the rows; a NULL list returns at once
unfoldable pub union_tools :
    (String → Option (List String)) → List String → List McpServerPolicy → Option (List String)
union_tools parse union [] = some union
union_tools parse union (row ∷ rows) = elim row.allowed_tools [
  | none ↦ none
  | some json ↦ union_tools parse (extend union (parse json)) rows
]

-- the servers of the entries, each the part before the first `:`
unfoldable pub servers_of : List String → List String
servers_of [] = []
servers_of (entry ∷ set) = elim (split_once b':' entry) [
  | none ↦ servers_of set
  | some (server, tool) ↦ server ∷ servers_of set
]

-- `format!("{server}:{tool}")`
abbrev pub entry_of : String → String → String
entry_of server tool = server <> (":" <> tool)

-- `set.iter().any(|entry| entry.starts_with(&format!("{server}:")))`
unfoldable pub any_on_server : Option (List String) → String → Bool
any_on_server none server = true
any_on_server (some set) server = any (λ entry. starts_with entry (server <> ":")) set

module _ (x : External) where
  abbrev pub mcp_rows_of : List String → World → List McpServerPolicy
  mcp_rows_of groups w = select (λ r. contains groups r.group_name) w.mcp_server_policies

  unfoldable pub resolve_mcp_allowed_tools : List String → Exec Error (Option (List String))
  resolve_mcp_allowed_tools [] = pure (some [])
  resolve_mcp_allowed_tools (group ∷ groups) = do
    rows ← query "query mcp server policies" (mcp_rows_of (group ∷ groups))
    pure (union_tools x.parse_strings [] rows)

  unfoldable pub resolve_mcp_tool_allowed : List String → String → String → Exec Error Bool
  unfolding resolve_mcp_allowed_tools
  resolve_mcp_tool_allowed groups server tool = do
    allowed ← resolve_mcp_allowed_tools groups
    pure (permits allowed (entry_of server tool))

  unfoldable pub resolve_mcp_has_any_tool : List String → String → Exec Error Bool
  unfolding resolve_mcp_allowed_tools any_on_server
  resolve_mcp_has_any_tool groups server = do
    allowed ← resolve_mcp_allowed_tools groups
    pure (any_on_server allowed server)

  unfoldable pub resolve_mcp_allowed_servers : List String → Exec Error (Option (List String))
  unfolding resolve_mcp_allowed_tools servers_of
  resolve_mcp_allowed_servers groups = do
    allowed ← resolve_mcp_allowed_tools groups
    pure (elim allowed [ none ↦ none | some set ↦ some (servers_of set) ])

abbrev pub has_group : String → McpServerPolicy → Bool
has_group group_name r = r.group_name == group_name

unfoldable pub get_mcp_policy : String → Exec Error (Option McpServerPolicy)
get_mcp_policy group_name =
    query "get mcp server policy" (λ w. find (has_group group_name) w.mcp_server_policies)

unfoldable pub write_mcp_policy :
    String → Option String → Option McpServerPolicy → Exec Error (Unit {0})
write_mcp_policy group_name tools_json (some existing) = do
  now ← now_utc
  write "update mcp server policy" (λ w. record w {
    mcp_server_policies =
        update (λ r. r.id == existing.id)
          (λ r. record r { allowed_tools = tools_json; updated_at = now }) w.mcp_server_policies;
  })
write_mcp_policy group_name tools_json none = do
  now ← now_utc
  id ← new_v4
  write "insert mcp server policy" (λ w. record w {
    mcp_server_policies =
        w.mcp_server_policies
        ++ record {
          id = id;
          group_name = group_name;
          allowed_tools = tools_json;
          created_at = format_time now;
          updated_at = format_time now;
        }
          ∷ [];
  })

module _ (x : External) where
  unfoldable pub upsert_mcp_policy : String → Option (List String) → Exec Error (Unit {0})
  unfolding write_mcp_policy get_mcp_policy
  upsert_mcp_policy group_name allowed_tools = do
    let tools_json = Opt.map x.print_strings allowed_tools
    existing ← get_mcp_policy group_name
    write_mcp_policy group_name tools_json existing

unfoldable pub delete_mcp_policy : String → Exec Error Bool
delete_mcp_policy group_name = execute "delete mcp server policy" (λ w. (
  any (has_group group_name) w.mcp_server_policies,
  record w { mcp_server_policies = discard (has_group group_name) w.mcp_server_policies },
))
