-- ===== src/Proxy/McpHub/FanOut/Listed.antt =====
-- Which tools crates/central/src/proxy/mcp_hub.rs lists.
use oidc_agent_compat.Prelude.{
  ℕ, String, ◌≡◌, refl, ◌∙◌, inl, inr, true, false, Option, none, some, List, [], ◌∷◌, ◌++◌, All,
  Some, All-map, All-append, Bool-cases,
}
use oidc_agent_compat.Error.{Error, Result, ok, err}
use oidc_agent_compat.World.{World, ◌>>=◌, attempt}
use oidc_agent_compat.Servers.{McpServerInfo, ResolvedMcpServer, resolve_server}
use oidc_agent_compat.Proxy.Upstream.{Upstream, Answered}
use oidc_agent_compat.External.{External, Json, null, boolean, number, string, array, object}
use oidc_agent_compat.Json.{get, as_str}
use oidc_agent_compat.Mcp.Hub.{join_tool_name, split_tool_name}
use oidc_agent_compat.Mcp.Hub.RoundTrip.{ends_open, split-join_tool_name}
use oidc_agent_compat.Optimizer.{text_at}
use oidc_agent_compat.Policy.Merge.{permits}
use oidc_agent_compat.Policy.Mcp.{entry_of}
use oidc_agent_compat.Proxy.McpHub.Call.{insert_field}
use oidc_agent_compat.Proxy.McpHub.Call.Renamed.{get_field-insert_field, get_field-insert_other}
use oidc_agent_compat.Proxy.McpHub.FanOut.{
  is_read, expose, expose_named, expose_all, exposed_tools, exposed_answer, tools_of, ask_server,
  collect_tools,
}

-- the name of a tool in the hub
text_at-expose :
    (server name : String) (tool : Json)
    → text_at "name" tool ≡ some name
    → text_at "name" (expose server name tool) ≡ some (join_tool_name server name)
unfolding text_at get as_str expose
text_at-expose server name (object fs) h =
    let inner = insert_field "name" (string (join_tool_name server name)) fs in
    let found : get "name" (expose server name (object fs))
        ≡ some (string (join_tool_name server name)) =
      get_field-insert_other "x-oac-server" (string server) "name" inner refl
      ∙ get_field-insert_field "name" (string (join_tool_name server name)) fs in
    rw (text_at, found) refl
text_at-expose server name null h = cc h
text_at-expose server name (boolean b) h = cc h
text_at-expose server name (number n) h = cc h
text_at-expose server name (string s) h = cc h
text_at-expose server name (array items) h = cc h

module _ (allowed : Option (List String)) (server : String) where
  -- the tool has the name of an allowed one, and a call by it reaches this tool of this server
  abbrev pub IsCallable : Json → Type 0
  IsCallable tool =
      (name : String) × (text_at "name" tool ≡ some (join_tool_name server name))
      × (split_tool_name (join_tool_name server name) ≡ some (server, name))
      × (permits allowed (entry_of server name) ≡ true)

  module _ (whole : split_tool_name server ≡ none) (closed : ends_open server ≡ false) where
    expose_named-IsCallable :
        (tool : Json) (name : Option String)
        → text_at "name" tool ≡ name
        → All IsCallable (expose_named allowed server tool name)
    unfolding expose_named
    expose_named-IsCallable tool none h = tt
    expose_named-IsCallable tool (some name) h =
        elim (Bool-cases (permits allowed (entry_of server name))) [
          | inl may ↦ rw may (
            (
              name,
              text_at-expose server name tool h,
              split-join_tool_name server name whole closed,
              may,
            ),
            tt,
          )
          | inr not_allowed ↦ rw not_allowed tt
        ]

    expose_all-IsCallable : (tools : List Json) → All IsCallable (expose_all allowed server tools)
    unfolding expose_all
    expose_all-IsCallable [] = tt
    expose_all-IsCallable (tool ∷ tools) =
        All-append IsCallable (expose_named allowed server tool (text_at "name" tool))
          (expose_all allowed server tools)
          (expose_named-IsCallable tool (text_at "name" tool) refl) (expose_all-IsCallable tools)

    exposed_tools-IsCallable :
        (x : External) (answer : Result Error Answered)
        → All IsCallable (exposed_tools x allowed server answer)
    unfolding exposed_tools
    exposed_tools-IsCallable x (err e) = tt
    exposed_tools-IsCallable x (ok answered) = elim (Bool-cases (is_read answered)) [
      | inl h ↦ rw h (expose_all-IsCallable (tools_of (x.parse_json answered.bytes)))
      | inr h ↦ rw h tt
    ]

    exposed_answer-IsCallable :
        (x : External) (upstream : Upstream) (answer : Option (Result Error Answered))
        → All IsCallable (exposed_answer x upstream allowed server answer)
    exposed_answer-IsCallable x upstream none = tt
    exposed_answer-IsCallable x upstream (some answer) = exposed_tools-IsCallable x answer

-- the id holds no separator and does not end with an underscore
abbrev pub IsPlain : McpServerInfo → Type 0
IsPlain s = (split_tool_name s.id ≡ none) × (ends_open s.id ≡ false)

module _ (x : External) (upstream : Upstream) (allowed : Option (List String))
    (raw_body : List ℕ) where
  ask_server_ends :
      (resolved : Result Error (Option ResolvedMcpServer)) (w : World)
      → (answer : Option (Result Error Answered)) × ((ask_server x upstream raw_body resolved w).0
          ≡ ok answer)
  unfolding ask_server ◌>>=◌ attempt
  ask_server_ends (ok (some resolved)) w = (_, refl)
  ask_server_ends (ok none) w = (none, refl)
  ask_server_ends (err e) w = (none, refl)

  -- a tool of one of the servers, which a call by its name reaches
  abbrev pub IsListed : List McpServerInfo → Json → Type 0
  IsListed servers tool = Some (λ s. IsCallable allowed s.id tool) servers

  -- The loop over servers with such ids always ends with a list, and every tool of the list has the
  -- combined name of a tool that the policy allows on one of the servers; the name splits into this
  -- server and tool, so that a call by it passes the policy and is sent to the server.
  pub collect_tools_lem :
      (servers : List McpServerInfo) (w : World)
      → All IsPlain servers
      → (tools : List Json) × ((collect_tools x upstream allowed raw_body servers w).0 ≡ ok tools)
        × All (IsListed servers) tools
  unfolding collect_tools ◌>>=◌ attempt
  collect_tools_lem [] w h = ([], refl, tt)
  collect_tools_lem (s ∷ servers) w (plain, more) =
      let (found, v) = resolve_server x s.id w in
      let (answer, e) = ask_server_ends found v in
      let (tools, ends, listed) =
        collect_tools_lem servers (ask_server x upstream raw_body found v).1 more in
      (
        exposed_answer x upstream allowed s.id answer ++ tools,
        rw (e) (rw ends refl),
        All-append (IsListed (s ∷ servers)) (exposed_answer x upstream allowed s.id answer) tools
            (All-map (λ t c. inl c) _
              (exposed_answer-IsCallable allowed s.id plain.0 plain.1 x upstream answer))
            (All-map (λ t c. inr c) tools listed),
      )
