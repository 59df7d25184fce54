-- ===== src/Admin/Routes/Quiet/Stores.antt =====
-- The methods that the admin handlers call write nothing to the admin audit log.
use oidc_agent_compat.Prelude.{
  ℕ, String, ◌≡◌, refl, Bool, true, false, List, [], ◌∷◌, Option, none, some, arith,
}
use oidc_agent_compat.Entity.{GroupPolicy, McpServerPolicy, McpServer, Provider}
use oidc_agent_compat.External.{External}
use oidc_agent_compat.World.{World}
use oidc_agent_compat.Policy.Store.{
  PolicyFields, get_policy, write_policy, upsert_policy_full, delete_policy,
}
use oidc_agent_compat.Policy.Mcp.{
  get_mcp_policy, write_mcp_policy, upsert_mcp_policy, delete_mcp_policy,
}
use oidc_agent_compat.Device.{set_revoked, revoke, reinstate}
use oidc_agent_compat.Providers.{
  ProviderInput, get_provider, clear_defaults, clear_other_defaults, clear_if, write_provider,
  loaded_provider, upsert_provider, delete_provider, set_default, set_default_provider,
}
use oidc_agent_compat.Servers.{
  McpServerInput, McpServerInfo, seal, seal_header, insert_server, get_server, loaded, after_insert,
  write_server, upsert_server, delete_server,
}
use oidc_agent_compat.Admin.Routes.Quiet.{Quiet, Quiet-bind, Quiet-now_utc, quiet}

set_revoked-Quiet : (fingerprint : String) (b : Bool) → Quiet (set_revoked fingerprint b)
unfolding set_revoked
set_revoked-Quiet fingerprint b = search quiet

pub revoke-Quiet : (fingerprint : String) → Quiet (revoke fingerprint)
unfolding revoke
revoke-Quiet fingerprint = set_revoked-Quiet fingerprint true

pub reinstate-Quiet : (fingerprint : String) → Quiet (reinstate fingerprint)
unfolding reinstate
reinstate-Quiet fingerprint = set_revoked-Quiet fingerprint false

pub delete_policy-Quiet : (name : String) → Quiet (delete_policy name)
unfolding delete_policy
delete_policy-Quiet name = search quiet

pub get_policy-Quiet : (name : String) → Quiet (get_policy name)
unfolding get_policy
get_policy-Quiet name = search quiet

write_policy-Quiet :
    (name : String) (f : PolicyFields) (o : Option GroupPolicy) → Quiet (write_policy name f o)
unfolding write_policy
write_policy-Quiet name f none = search quiet
write_policy-Quiet name f (some p) = search quiet

pub upsert_policy_full-Quiet :
    (name : String) (f : PolicyFields) → Quiet (upsert_policy_full name f)
unfolding upsert_policy_full
upsert_policy_full-Quiet name f = search (quiet, get_policy-Quiet, write_policy-Quiet)

get_mcp_policy-Quiet : (name : String) → Quiet (get_mcp_policy name)
unfolding get_mcp_policy
get_mcp_policy-Quiet name = search quiet

write_mcp_policy-Quiet :
    (name : String) (tools : Option String) (o : Option McpServerPolicy)
    → Quiet (write_mcp_policy name tools o)
unfolding write_mcp_policy
write_mcp_policy-Quiet name tools none = search quiet
write_mcp_policy-Quiet name tools (some p) = search quiet

pub upsert_mcp_policy-Quiet :
    (x : External) (name : String) (tools : Option (List String))
    → Quiet (upsert_mcp_policy x name tools)
unfolding upsert_mcp_policy
upsert_mcp_policy-Quiet x name tools = search (quiet, get_mcp_policy-Quiet, write_mcp_policy-Quiet)

pub delete_mcp_policy-Quiet : (name : String) → Quiet (delete_mcp_policy name)
unfolding delete_mcp_policy
delete_mcp_policy-Quiet name = search quiet

pub get_provider-Quiet : (id : String) → Quiet (get_provider id)
unfolding get_provider
get_provider-Quiet id = search quiet

clear_defaults-Quiet : (items : List Provider) → Quiet (clear_defaults items)
unfolding clear_defaults
clear_defaults-Quiet [] = search quiet
clear_defaults-Quiet (item ∷ items) =
    Quiet-bind _ _ Quiet-now_utc
      (λ now. Quiet-bind _ _ (search quiet) (λ _. clear_defaults-Quiet items))

clear_other_defaults-Quiet : (id : String) → Quiet (clear_other_defaults id)
unfolding clear_other_defaults
clear_other_defaults-Quiet id = search (quiet, clear_defaults-Quiet)

clear_if-Quiet : (b : Bool) (id : String) → Quiet (clear_if b id)
clear_if-Quiet true id = clear_other_defaults-Quiet id
clear_if-Quiet false id = search quiet

loaded_provider-Quiet : (o : Option Provider) → Quiet (loaded_provider o)
unfolding loaded_provider
loaded_provider-Quiet none = search quiet
loaded_provider-Quiet (some p) = search quiet

write_provider-Quiet :
    (input : ProviderInput) (models : Option String) (now : ℕ) (o : Option Provider)
    → Quiet (write_provider input models now o)
unfolding write_provider
write_provider-Quiet input models now none =
    search (quiet, clear_if-Quiet, get_provider-Quiet, loaded_provider-Quiet)
write_provider-Quiet input models now (some p) = search (quiet, clear_if-Quiet)

pub upsert_provider-Quiet : (x : External) (input : ProviderInput) → Quiet (upsert_provider x input)
unfolding upsert_provider
upsert_provider-Quiet x input = search (quiet, get_provider-Quiet, write_provider-Quiet)

pub delete_provider-Quiet : (id : String) → Quiet (delete_provider id)
unfolding delete_provider
delete_provider-Quiet id = search quiet

set_default-Quiet : (id : String) (o : Option Provider) → Quiet (set_default id o)
unfolding set_default
set_default-Quiet id none = search quiet
set_default-Quiet id (some p) = search (quiet, clear_other_defaults-Quiet)

pub set_default_provider-Quiet : (id : String) → Quiet (set_default_provider id)
unfolding set_default_provider
set_default_provider-Quiet id = search (quiet, get_provider-Quiet, set_default-Quiet)

pub delete_server-Quiet : (id : String) → Quiet (delete_server id)
unfolding delete_server
delete_server-Quiet id = search quiet

seal-Quiet : (x : External) (line : String) → Quiet (seal x line)
unfolding seal
seal-Quiet x line = record { keeps = λ w. (refl, λ h. h) }

seal_header-Quiet : (x : External) (o : Option String) → Quiet (seal_header x o)
unfolding seal_header
seal_header-Quiet x none = search quiet
seal_header-Quiet x (some line) = search (quiet, seal-Quiet)

insert_server-log :
    (row : McpServer) (u : World) → (insert_server row u).1.admin_audit_log ≡ u.admin_audit_log
unfolding insert_server
insert_server-log row u = ground arith

insert_server-faults : (row : McpServer) (u : World) → (insert_server row u).1.faults ≡ u.faults
unfolding insert_server
insert_server-faults row u = ground arith

pub get_server-Quiet : (id : String) → Quiet (get_server id)
unfolding get_server
get_server-Quiet id = search quiet

loaded-Quiet : (o : Option McpServerInfo) → Quiet (loaded o)
unfolding loaded
loaded-Quiet none = search quiet
loaded-Quiet (some s) = search quiet

after_insert-Quiet : (id : String) (b : Bool) → Quiet (after_insert id b)
unfolding after_insert
after_insert-Quiet id true = search (quiet, get_server-Quiet, loaded-Quiet)
after_insert-Quiet id false = search quiet

write_server-Quiet :
    (input : McpServerInput) (auth : List ℕ × List ℕ) (now : ℕ) (o : Option McpServer)
    → Quiet (write_server input auth now o)
unfolding write_server
write_server-Quiet input auth now none =
    search (quiet, insert_server-log, insert_server-faults, after_insert-Quiet)
write_server-Quiet input auth now (some s) = search quiet

pub upsert_server-Quiet : (x : External) (input : McpServerInput) → Quiet (upsert_server x input)
unfolding upsert_server
upsert_server-Quiet x input = search (quiet, seal_header-Quiet, write_server-Quiet)
