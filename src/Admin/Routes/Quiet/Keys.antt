-- ===== src/Admin/Routes/Quiet/Keys.antt =====
-- The methods on the keys of providers write nothing to the admin audit log.
use oidc_agent_compat.Prelude.{
  String, ◌≡◌, refl, Bool, true, false, List, [], ◌∷◌, Option, none, some, arith,
}
use oidc_agent_compat.Prelude.Text.{trim}
use oidc_agent_compat.Prelude.Int.{ℤ}
use oidc_agent_compat.Entity.{Provider, ProviderKey}
use oidc_agent_compat.External.{External}
use oidc_agent_compat.World.{World}
use oidc_agent_compat.Providers.{is_blank_name}
use oidc_agent_compat.Providers.Access.{
  key_access_groups, insert_access, or_conflict, insert_groups, replace_access,
}
use oidc_agent_compat.Providers.Keys.{
  ProviderKeyUpdate, get_key, seal_key, required, loaded_key, with_access, insert_key, add_key,
  change_key, update_key, delete_key,
}
use oidc_agent_compat.Admin.Routes.Quiet.{Quiet, Quiet-bind, Quiet-if, Quiet-execute, quiet}
use oidc_agent_compat.Admin.Routes.Quiet.Stores.{get_provider-Quiet}

pub key_access_groups-Quiet : (id : String) → Quiet (key_access_groups id)
unfolding key_access_groups
key_access_groups-Quiet id = search quiet

insert_access-log :
    (id group : String) (u : World)
    → (insert_access id group u).1.admin_audit_log ≡ u.admin_audit_log
unfolding insert_access
insert_access-log id group u = ground arith

insert_access-faults :
    (id group : String) (u : World) → (insert_access id group u).1.faults ≡ u.faults
unfolding insert_access
insert_access-faults id group u = ground arith

or_conflict-Quiet : (b : Bool) → Quiet (or_conflict b)
unfolding or_conflict
or_conflict-Quiet true = search quiet
or_conflict-Quiet false = search quiet

insert_groups-Quiet : (id : String) (groups : List String) → Quiet (insert_groups id groups)
unfolding insert_groups
insert_groups-Quiet id [] = search quiet
insert_groups-Quiet id (g ∷ groups) =
    let rest = insert_groups-Quiet id groups in
    Quiet-if (is_blank_name g) _ _ rest (
      Quiet-bind _ _
        (Quiet-execute _ (insert_access id (trim g)) (insert_access-log id (trim g))
          (insert_access-faults id (trim g)))
        (λ b. Quiet-bind _ _ (or_conflict-Quiet b) (λ _. rest)))

replace_access-Quiet : (id : String) (groups : List String) → Quiet (replace_access id groups)
unfolding replace_access
replace_access-Quiet id groups = search (quiet, insert_groups-Quiet)

seal_key-Quiet : (x : External) (secret : String) → Quiet (seal_key x secret)
unfolding seal_key
seal_key-Quiet x secret = record { keeps = λ w. (refl, λ h. h) }

required-Quiet : (message : String) (o : Option ProviderKey) → Quiet (required message o)
unfolding required
required-Quiet message none = search quiet
required-Quiet message (some k) = search quiet

loaded_key-Quiet : (o : Option ProviderKey) → Quiet (loaded_key o)
unfolding loaded_key
loaded_key-Quiet none = search quiet
loaded_key-Quiet (some k) = search quiet

with_access-Quiet : (key : ProviderKey) (groups : List String) → Quiet (with_access key groups)
unfolding with_access
with_access-Quiet key groups = search (quiet, replace_access-Quiet, key_access_groups-Quiet)

insert_key-Quiet :
    (x : External) (sha256_hex : String → String) (provider_id label secret : String) (priority : ℤ)
    (groups : List String) (o : Option Provider)
    → Quiet (insert_key x sha256_hex provider_id label secret priority groups o)
unfolding insert_key
insert_key-Quiet x sha256_hex provider_id label secret priority groups none = search quiet
insert_key-Quiet x sha256_hex provider_id label secret priority groups (some p) =
    search (quiet, seal_key-Quiet, loaded_key-Quiet, with_access-Quiet) depth 20

pub add_key-Quiet :
    (x : External) (sha256_hex : String → String) (provider_id label secret : String) (priority : ℤ)
    (groups : List String)
    → Quiet (add_key x sha256_hex provider_id label secret priority groups)
unfolding add_key
add_key-Quiet x sha256_hex provider_id label secret priority groups =
    search (quiet, get_provider-Quiet, insert_key-Quiet)

pub get_key-Quiet : (provider_id key_id : String) → Quiet (get_key provider_id key_id)
unfolding get_key
get_key-Quiet provider_id key_id = search quiet

change_key-Quiet :
    (provider_id : String) (changes : ProviderKeyUpdate) (key : ProviderKey)
    → Quiet (change_key provider_id changes key)
unfolding change_key
change_key-Quiet provider_id changes key = search (quiet, with_access-Quiet)

pub update_key-Quiet :
    (provider_id key_id : String) (changes : ProviderKeyUpdate)
    → Quiet (update_key provider_id key_id changes)
unfolding update_key
update_key-Quiet provider_id key_id changes = search (quiet, required-Quiet, change_key-Quiet)

pub delete_key-Quiet : (provider_id key_id : String) → Quiet (delete_key provider_id key_id)
unfolding delete_key
delete_key-Quiet provider_id key_id = search quiet
