-- ===== src/Servers.antt =====
-- crates/central/src/mcp.rs: the registry of MCP servers.
use mathlib.Core.Option as Opt
use text.Mathlib.Text.{starts_with}
use oidc_agent_compat.Prelude.{
  ℕ, suc, String, ◌<>◌, ◌==◌, Bool, true, false, ◌&&◌, ◌||◌, not, Option, none, some, List, [], ◌∷◌,
  ◌++◌, map, find, any, select, discard, update, length, eqb, if◌then◌else◌,
}
use oidc_agent_compat.Prelude.Text.{has_char, trim, contains_text, lt_text}
use oidc_agent_compat.Prelude.Utf8.{from_utf8}
use oidc_agent_compat.Error.{Error, config, database, crypto, Result, ok, err}
use oidc_agent_compat.Entity.{McpServer}
use oidc_agent_compat.External.{External}
use oidc_agent_compat.World.{
  World, Exec, pure, raise, lift, ◌>>=◌, ◌>>◌, query, execute, now_utc, format_time,
}

pub record McpServerInfo : Type 0 where
  pub id : String
  pub name : String
  pub base_url : String
  pub enabled : Bool
  pub has_auth : Bool
  pub created_at : ℕ
  pub updated_at : ℕ

pub record McpServerInput : Type 0 where
  pub id : String
  pub name : String
  pub base_url : String
  pub enabled : Bool
  pub auth_header : Option String

pub record ResolvedMcpServer : Type 0 where
  pub id : String
  pub base_url : String
  pub auth_header : Option String

-- `is_empty()` of a byte vector
abbrev pub no_bytes : List ℕ → Bool
no_bytes [] = true
no_bytes (_ ∷ _) = false

abbrev pub info : McpServer → McpServerInfo
info model = record {
  id = model.id;
  name = model.name;
  base_url = model.base_url;
  enabled = model.enabled;
  has_auth = not (no_bytes model.auth_ciphertext);
  created_at = model.created_at;
  updated_at = model.updated_at;
}

abbrev pub id_message : String
id_message = "MCP server id must be non-empty and must not contain '/' or spaces"

abbrev pub separator_message : String
separator_message =
    "MCP server id must not contain '__' (reserved as the tool-name separator in the combined hub)"

abbrev pub url_message : String → String
url_message base_url =
    "MCP server base_url must be an absolute http(s) URL, got '" <> base_url <> "'"

-- `McpServerInput::validate_server`
unfoldable pub validate_server : McpServerInput → Result Error (Unit {0})
unfolding trim has_char contains_text
validate_server input =
    let id = trim input.id in
    if id == "" || (has_char b'/' id || has_char b' ' id)
    then err (config id_message)
    else if contains_text "__" id
    then err (config separator_message)
    else if trim input.name == ""
    then err (config "MCP server name must not be empty")
    else if not (starts_with input.base_url "http://")
        && not (starts_with input.base_url "https://")
    then err (config (url_message input.base_url))
    else ok tt

abbrev pub has_id : String → McpServer → Bool
has_id id s = s.id == id

unfoldable pub sealed : Option (List ℕ) → List ℕ → Result Error (List ℕ × List ℕ)
sealed none nonce = err (crypto "encrypt MCP auth header")
sealed (some ciphertext) nonce = ok (ciphertext, nonce)

-- `[0u8; 12]`
abbrev pub zero_nonce : List ℕ
zero_nonce = 0 ∷ 0 ∷ 0 ∷ 0 ∷ 0 ∷ 0 ∷ 0 ∷ 0 ∷ 0 ∷ 0 ∷ 0 ∷ 0 ∷ []

module _ (x : External) where
  -- `encrypt`, with a fresh nonce
  unfoldable pub seal : String → Exec Error (List ℕ × List ℕ)
  unfolding sealed
  seal secret w =
      let nonce = w.nonces w.drawn in
      (sealed (x.encrypt nonce secret) nonce, record w { drawn = suc w.drawn })

  unfoldable pub seal_header : Option String → Exec Error (List ℕ × List ℕ)
  unfolding seal
  seal_header none = pure ([], zero_nonce)
  seal_header (some header) = seal header

-- the columns that an update of an existing server sets
unfoldable pub overwrite_server : McpServerInput → List ℕ × List ℕ → ℕ → McpServer → McpServer
overwrite_server input (ciphertext, nonce) now s = record s {
  name = trim input.name;
  base_url = trim input.base_url;
  enabled = input.enabled;
  auth_ciphertext = elim input.auth_header [ none ↦ s.auth_ciphertext | some _ ↦ ciphertext ];
  auth_nonce = elim input.auth_header [ none ↦ s.auth_nonce | some _ ↦ nonce ];
  updated_at = now;
}

unfoldable pub new_server : McpServerInput → List ℕ × List ℕ → ℕ → McpServer
new_server input (ciphertext, nonce) now = record {
  id = trim input.id;
  name = trim input.name;
  base_url = trim input.base_url;
  enabled = input.enabled;
  auth_ciphertext = ciphertext;
  auth_nonce = nonce;
  created_at = format_time now;
  updated_at = format_time now;
}

-- The id is the primary key: the statement fails if a row has it.
unfoldable pub insert_server : McpServer → World → Bool × World
insert_server row w =
    if any (has_id row.id) w.mcp_servers
    then (false, w)
    else (true, record w { mcp_servers = w.mcp_servers ++ row ∷ [] })

unfoldable pub get_server : String → Exec Error (Option McpServerInfo)
get_server id = do
  row ← query "get mcp server" (λ w. find (has_id id) w.mcp_servers)
  pure (Opt.map info row)

unfoldable pub loaded : Option McpServerInfo → Exec Error McpServerInfo
loaded none = raise (database "mcp server inserted but could not be loaded")
loaded (some server) = pure server

unfoldable pub after_insert : String → Bool → Exec Error McpServerInfo
unfolding get_server loaded
after_insert id false =
    raise (database "insert mcp server: UNIQUE constraint failed: mcp_servers.id")
after_insert id true = do server ← get_server id; loaded server

unfoldable pub write_server :
    McpServerInput → List ℕ × List ℕ → ℕ → Option McpServer → Exec Error McpServerInfo
unfolding overwrite_server new_server insert_server after_insert
write_server input auth now (some existing) = execute "update mcp server" (λ w. (
  info (overwrite_server input auth now existing),
  record w {
    mcp_servers =
        update (has_id existing.id) (λ s. overwrite_server input auth now existing) w.mcp_servers;
  },
))
write_server input auth now none = do
  inserted ← execute "insert mcp server" (insert_server (new_server input auth now))
  after_insert (trim input.id) inserted

unfoldable pub upsert_server : External → McpServerInput → Exec Error McpServerInfo
unfolding validate_server seal_header write_server
upsert_server x input = do
  lift (validate_server input)
  now ← now_utc
  auth ← seal_header x input.auth_header
  existing ← query "load mcp server" (λ w. find (has_id input.id) w.mcp_servers)
  write_server input auth now existing

-- `order_by_asc(Column::Id)`
unfoldable pub insert_by_id : McpServer → List McpServer → List McpServer
insert_by_id s [] = s ∷ []
insert_by_id s (t ∷ ts) =
    let rest = insert_by_id s ts in if lt_text t.id s.id then t ∷ rest else s ∷ t ∷ ts

unfoldable pub sort_by_id : List McpServer → List McpServer
unfolding insert_by_id
sort_by_id [] = []
sort_by_id (s ∷ ss) = insert_by_id s (sort_by_id ss)

unfoldable pub list_servers : Exec Error (List McpServerInfo)
unfolding sort_by_id
list_servers = do
  rows ← query "list mcp servers" (λ w. sort_by_id w.mcp_servers)
  pure (map info rows)

unfoldable pub list_enabled_servers : Exec Error (List McpServerInfo)
unfolding list_servers
list_enabled_servers = do
  servers ← list_servers
  pure (select (λ (s : McpServerInfo). s.enabled) servers)

unfoldable pub delete_server : String → Exec Error Bool
delete_server id = execute "delete mcp server" (λ w.
    (any (has_id id) w.mcp_servers, record w { mcp_servers = discard (has_id id) w.mcp_servers }))

-- `decrypt`
unfoldable pub unseal : External → List ℕ → List ℕ → Result Error (List ℕ)
unseal x ciphertext nonce =
    if eqb (length nonce) 12
    then elim (x.decrypt nonce ciphertext) [
      | none ↦ err (crypto "decrypt MCP auth header")
      | some plain ↦ ok plain
    ]
    else err (crypto "invalid MCP auth header nonce")

unfoldable pub header_line : Result Error (List ℕ) → Result Error (Option String)
unfolding from_utf8
header_line (err e) = err e
header_line (ok plain) = elim (from_utf8 plain) [
  | none ↦ err (crypto "stored MCP auth header is not valid UTF-8")
  | some s ↦ ok (some s)
]

unfoldable pub auth_header_of : External → McpServer → Result Error (Option String)
unfolding unseal header_line
auth_header_of x row =
    if no_bytes row.auth_ciphertext
    then ok none
    else header_line (unseal x row.auth_ciphertext row.auth_nonce)

abbrev pub connection : McpServer → Option String → Option ResolvedMcpServer
connection row auth_header =
    some (record { id = row.id; base_url = row.base_url; auth_header = auth_header })

unfoldable pub resolve_row : External → Option McpServer → Exec Error (Option ResolvedMcpServer)
unfolding auth_header_of
resolve_row x none = pure none
resolve_row x (some row) =
    if row.enabled
    then (do auth_header ← lift (auth_header_of x row); pure (connection row auth_header))
    else pure none

unfoldable pub resolve_server : External → String → Exec Error (Option ResolvedMcpServer)
unfolding resolve_row
resolve_server x id = do
  row ← query "resolve mcp server" (λ w. find (has_id id) w.mcp_servers)
  resolve_row x row
