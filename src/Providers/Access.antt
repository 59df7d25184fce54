-- ===== src/Providers/Access.antt =====
-- crates/central/src/provider.rs: the groups that may use a key.
use oidc_agent_compat.Prelude.{
  String, ◌==◌, Bool, true, false, ◌&&◌, List, [], ◌∷◌, ◌++◌, map, any, select, discard, sort_by,
  if◌then◌else◌,
}
use oidc_agent_compat.Prelude.Text.{trim, lt_text}
use oidc_agent_compat.Error.{Error, database}
use oidc_agent_compat.Entity.{ProviderKeyAccess}
use oidc_agent_compat.World.{World, Exec, pure, raise, ◌>>=◌, ◌>>◌, query, execute, write}
use oidc_agent_compat.Providers.{is_blank_name}

abbrev pub is_access_of : String → ProviderKeyAccess → Bool
is_access_of key_id a = a.provider_key_id == key_id

-- the groups of a key in the table, in their order
abbrev pub groups_with : String → World → List String
groups_with key_id w =
    sort_by (λ (a : String) (b : String). lt_text b a)
      (map (λ (a : ProviderKeyAccess). a.group_name)
        (select (is_access_of key_id) w.provider_key_access))

unfoldable pub key_access_groups : String → Exec Error (List String)
key_access_groups key_id = query "load provider key access" (groups_with key_id)

-- Key and group are the primary key: the statement fails if a row has them.
unfoldable pub insert_access : String → String → World → Bool × World
insert_access key_id group w =
    if any (λ a. is_access_of key_id a && a.group_name == group) w.provider_key_access
    then (false, w)
    else (
      true,
      record w {
        provider_key_access =
            w.provider_key_access ++ record { provider_key_id = key_id; group_name = group } ∷ [];
      },
    )

unfoldable pub or_conflict : Bool → Exec Error (Unit {0})
or_conflict true = pure tt
or_conflict false = raise (database "insert provider key access: UNIQUE constraint failed")

-- the loop of `replace_access`
unfoldable pub insert_groups : String → List String → Exec Error (Unit {0})
unfolding insert_access or_conflict
insert_groups key_id [] = pure tt
insert_groups key_id (group ∷ groups) =
    let rest = insert_groups key_id groups in
    if is_blank_name group then rest else (do
      inserted ← execute "insert provider key access" (insert_access key_id (trim group))
      or_conflict inserted
      rest)

abbrev pub without_access : String → World → World
without_access key_id w = record w {
  provider_key_access = discard (is_access_of key_id) w.provider_key_access;
}

unfoldable pub replace_access : String → List String → Exec Error (Unit {0})
unfolding insert_groups
replace_access key_id groups = do
  write "clear provider key access" (without_access key_id)
  insert_groups key_id groups
