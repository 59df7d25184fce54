-- ===== src/Admin/Servers.antt =====
-- crates/central/src/admin.rs: the handlers of MCP servers.
use oidc_agent_compat.Prelude.{String, ◌<>◌, ◌==◌, Bool, none, List, map, if◌then◌else◌}
use oidc_agent_compat.External.{External}
use oidc_agent_compat.World.{pure, raise, ◌>>=◌, ◌>>◌, map_err}
use oidc_agent_compat.Servers.{
  McpServerInfo, McpServerInput, list_servers, get_server, upsert_server, delete_server,
}
use oidc_agent_compat.Admin.{
  Handler, internal_error, map_validation_err, or_not_found, record_admin_audit,
}

pub record McpServerResponse : Type 0 where
  pub id : String
  pub name : String
  pub base_url : String
  pub enabled : Bool
  pub has_auth : Bool

unfoldable pub server_response : McpServerInfo → McpServerResponse
server_response info = record {
  id = info.id;
  name = info.name;
  base_url = info.base_url;
  enabled = info.enabled;
  has_auth = info.has_auth;
}

abbrev pub server_missing : String → String
server_missing id = "MCP server '" <> id <> "' not found"

unfoldable pub list_mcp_servers : Handler (List McpServerResponse)
unfolding server_response
list_mcp_servers = do
  servers ← map_err internal_error list_servers
  pure (map server_response servers)

-- `McpServerRequest` has the fields of `McpServerInput`. `map_mcp_err` is `map_validation_err`, but
-- for its log line.
unfoldable pub store_mcp_server :
    External → (admin id : String) → McpServerInput → Handler McpServerResponse
unfolding server_response record_admin_audit
store_mcp_server x admin id body = do
  server ← map_err map_validation_err (upsert_server x (record body { id = id }))
  record_admin_audit admin "upsert_mcp_server" id none
  pure (server_response server)

unfoldable pub create_mcp_server :
    External → (admin : String) → McpServerInput → Handler McpServerResponse
unfolding store_mcp_server
create_mcp_server x admin body =
    if body.id == ""
    then raise (400, "MCP server id must not be empty on create (POST /admin/v1/mcp/servers)")
    else store_mcp_server x admin body.id body

unfoldable pub upsert_mcp_server :
    External → (admin id : String) → McpServerInput → Handler McpServerResponse
unfolding store_mcp_server
upsert_mcp_server x admin id body = store_mcp_server x admin id body

unfoldable pub get_mcp_server : String → Handler McpServerResponse
unfolding server_response or_not_found
get_mcp_server id = do
  found ← map_err internal_error (get_server id)
  server ← or_not_found (server_missing id) found
  pure (server_response server)

-- The answer says whether there was a server.
unfoldable pub delete_mcp_server : (admin id : String) → Handler Bool
unfolding record_admin_audit
delete_mcp_server admin id = do
  deleted ← map_err internal_error (delete_server id)
  record_admin_audit admin "delete_mcp_server" id none
  pure deleted
