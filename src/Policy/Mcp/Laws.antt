-- ===== src/Policy/Mcp/Laws.antt =====
-- What the MCP tool policies of crates/central/src/policy.rs allow.
use text.Mathlib.Text.{starts_with}
use text.Mathlib.TextPositions.{starts_with-append}
use text.Mathlib.TextLemmas.{append_assoc, nil-append, cons-append}
use oidc_agent_compat.Prelude.{
  String, ◌<>◌, ◌==◌, eq_iff, eq_refl, ◌≡◌, refl, Bool, true, false, ◌||◌, ◌&&◌, Option, none, some,
  List, [], ◌∷◌, any, select, arith, Option-cases, inl, inr, sym, ap, ◌∙◌,
}
use oidc_agent_compat.Prelude.Text.{split_once, has_char, split_once-append}
use oidc_agent_compat.Error.{Error, Result, ok, err}
use oidc_agent_compat.Entity.{McpServerPolicy}
use oidc_agent_compat.External.{External}
use oidc_agent_compat.World.{World, ◌>>=◌, query}
use oidc_agent_compat.World.Cases.{with_faults}
use oidc_agent_compat.Policy.Merge.{contains, extend, permits}
use oidc_agent_compat.Policy.Merge.Allow.{grants, contains-extend}
use oidc_agent_compat.Policy.Mcp.{
  union_tools, servers_of, entry_of, any_on_server, resolve_mcp_allowed_tools,
  resolve_mcp_tool_allowed, resolve_mcp_has_any_tool, resolve_mcp_allowed_servers,
}

module _ (parse : String → Option (List String)) where
  permits-union_tools :
      (union : List String) (rows : List McpServerPolicy) (s : String)
      → permits (union_tools parse union rows) s
        ≡ (contains union s || any (λ r. grants parse r.allowed_tools s) rows)
  unfolding union_tools
  permits-union_tools union [] s = ground arith
  permits-union_tools union (row ∷ rows) s = elim (Option-cases row.allowed_tools) [
    | inl e ↦ rw (e, union_tools) (ground arith)
    | inr (json, e) ↦
        rw (e, union_tools)
          (ground (
            arith,
            permits-union_tools (extend union (parse json)) rows s,
            contains-extend union (parse json) s,
          ))
  ]

-- the rows of a query, tested inside the query
any-select {ℓ} :
    {A : Type ℓ} (p q : A → Bool) (xs : List A) → any q (select p xs) ≡ any (λ a. p a && q a) xs
any-select p q [] = refl
any-select p q (a ∷ xs) = ground (arith, any-select p q xs)

any-never {ℓ} : {A : Type ℓ} (xs : List A) → any (λ a. false) xs ≡ false
any-never [] = refl
any-never (a ∷ xs) = any-never xs

module _ (x : External) where
  permits-allowed_tools :
      (groups : List String) (w : World) (s : String)
      → (allowed : Option (List String)) × ((resolve_mcp_allowed_tools x groups
            (with_faults w [])).0
          ≡ ok allowed)
        × (permits allowed s
            ≡ any
                (λ r. contains groups r.group_name && grants x.parse_strings r.allowed_tools s)
                w.mcp_server_policies)
  unfolding resolve_mcp_allowed_tools ◌>>=◌ query
  permits-allowed_tools [] w s = (some [], refl, sym (any-never w.mcp_server_policies))
  permits-allowed_tools (g ∷ gs) w s = (
    _,
    refl,
    permits-union_tools x.parse_strings []
          (select (λ r. contains (g ∷ gs) r.group_name) w.mcp_server_policies) s
        ∙ any-select (λ r. contains (g ∷ gs) r.group_name)
            (λ r. grants x.parse_strings r.allowed_tools s) w.mcp_server_policies,
  )

  -- While the database answers, a tool is allowed exactly when some policy of one of the groups has
  -- a NULL list or lists `server:tool`: without groups or without policies it is denied.
  pub tool_allowed-eq-any :
      (groups : List String) (server tool : String) (w : World)
      → (resolve_mcp_tool_allowed x groups server tool (with_faults w [])).0
        ≡ ok (
            any
              (λ r.
                contains groups r.group_name
                && grants x.parse_strings r.allowed_tools (entry_of server tool))
              w.mcp_server_policies)
  unfolding resolve_mcp_tool_allowed ◌>>=◌
  tool_allowed-eq-any groups server tool w =
      let (allowed, e, p) = permits-allowed_tools groups w (entry_of server tool) in
      rw (e, ◌>>=◌, p) refl

starts_with-entry_of :
    (server tool : String) → starts_with (entry_of server tool) (server <> ":") ≡ true
starts_with-entry_of server tool =
    rw (← append_assoc server ":" tool) (starts_with-append (server <> ":") tool)

starts_with_of_eq :
    (entry server tool : String)
    → (entry == entry_of server tool) ≡ true
    → starts_with entry (server <> ":") ≡ true
starts_with_of_eq entry server tool h = rw ((eq_iff entry _).0 h) (starts_with-entry_of server tool)

any_on_server-entry :
    (allowed : Option (List String)) (server tool : String)
    → permits allowed (entry_of server tool) ≡ true
    → any_on_server allowed server ≡ true
unfolding any_on_server
any_on_server-entry none server tool h = refl
any_on_server-entry (some []) server tool h = cc
any_on_server-entry (some (entry ∷ set)) server tool h =
    ground (arith, starts_with_of_eq entry server tool, any_on_server-entry (some set) server tool)

colon-append : (tool : String) → ":" <> tool ≡ String.◌∷◌ ":" tool
colon-append tool = cons-append ":" "" tool ∙ ap (String.◌∷◌ ":") (nil-append tool)

split_once-entry_of :
    (server tool : String)
    → has_char b':' server ≡ false
    → split_once b':' (entry_of server tool) ≡ some (server, tool)
split_once-entry_of server tool plain =
    rw (colon-append tool) (split_once-append ":" server tool plain)

contains-servers_of :
    (set : List String) (server tool : String)
    → has_char b':' server ≡ false
    → contains set (entry_of server tool) ≡ true
    → contains (servers_of set) server ≡ true
unfolding servers_of
contains-servers_of [] server tool plain h = cc
contains-servers_of (entry ∷ set) server tool plain h = ground (
  arith,
  eq_iff entry (entry_of server tool),
  split_once-entry_of server tool plain,
  eq_refl server,
  contains-servers_of set server tool plain,
)

abbrev pub reaches : Option (List String) → String → Bool
reaches none server = true
reaches (some servers) server = contains servers server

module _ (x : External) (groups : List String) (server tool : String) (w : World) where
  -- A user who may call some tool on a server passes the check of the other methods there, and the
  -- server is among those that the user may reach, if its name has no `:`.
  pub allowed_tool_reaches :
      has_char b':' server ≡ false
      → (resolve_mcp_tool_allowed x groups server tool w).0 ≡ ok true
      → ((resolve_mcp_has_any_tool x groups server w).0 ≡ ok true)
        × ((servers : Option (List String)) × ((resolve_mcp_allowed_servers x groups w).0
              ≡ ok servers)
            × (reaches servers server ≡ true))
  unfolding resolve_mcp_tool_allowed resolve_mcp_has_any_tool resolve_mcp_allowed_servers ◌>>=◌
  allowed_tool_reaches plain h = go (resolve_mcp_allowed_tools x groups w).0 refl
    where
      go :
          (r : Result Error (Option (List String)))
          → (resolve_mcp_allowed_tools x groups w).0 ≡ r
          → ((resolve_mcp_has_any_tool x groups server w).0 ≡ ok true)
            × ((servers : Option (List String)) × ((resolve_mcp_allowed_servers x groups w).0
                  ≡ ok servers)
                × (reaches servers server ≡ true))
      go (ok none) e = (rw (e, ◌>>=◌) refl, (none, rw (e, ◌>>=◌) refl, refl))
      go (ok (some set)) e =
          let listed : contains set (entry_of server tool) ≡ true = ground arith in
          (
            rw (e, ◌>>=◌) (ap ok (any_on_server-entry (some set) server tool listed)),
            (
              some (servers_of set),
              rw (e, ◌>>=◌) refl,
              contains-servers_of set server tool plain listed,
            ),
          )
      go (err m) e = ground arith
