-- ===== src/Providers.antt =====
-- crates/central/src/provider.rs: the providers, and the keys by which they are called.
pub mod Access
pub mod Defaults
pub mod Keys
use mathlib.Core.Option as Opt
use text.Mathlib.Text.{starts_with}
use Prim.Native.String.{len}
use oidc_agent_compat.Prelude.{
  ℕ, suc, String, ◌<>◌, ◌==◌, Bool, true, false, ◌&&◌, ◌||◌, not, Option, none, some, List, [], ◌∷◌,
  ◌++◌, find, any, select, discard, update, leb, ltb, sort_by, if◌then◌else◌,
}
use oidc_agent_compat.Prelude.Text.{trim, trim_end_char, has_char, lt_text}
use oidc_agent_compat.Error.{Error, config, database, Result, ok, err}
use oidc_agent_compat.Entity.{Provider, ProviderKey, ProviderKeyAccess}
use oidc_agent_compat.External.{External}
use oidc_agent_compat.World.{
  World, Exec, pure, raise, lift, ◌>>=◌, ◌>>◌, query, execute, write, now_utc, format_time,
}
use oidc_agent_compat.Policy.Merge.{contains}

pub record ProviderInput : Type 0 where
  pub id : String
  pub name : String
  pub base_url : String
  pub enabled : Bool
  pub is_default : Bool
  pub models : Option (List String)

unfoldable pub validate_base_url : String → Result Error (Unit {0})
unfolding trim_end_char has_char
validate_base_url base_url =
    let value = trim_end_char b'/' base_url in
    if not (starts_with value "https://" || starts_with value "http://") || leb (len value) 8
    then err (config "provider base_url must be a non-empty http(s) URL")
    else if has_char b'@' value
    then err (config "provider base_url must not contain userinfo")
    else ok tt

-- a name that is blank
abbrev pub is_blank_name : String → Bool
is_blank_name s = trim s == ""

abbrev pub some_blank : Option (List String) → Bool
some_blank none = false
some_blank (some names) = any is_blank_name names

unfoldable pub after_url : ProviderInput → Result Error (Unit {0}) → Result Error (Unit {0})
after_url input (err e) = err e
after_url input (ok _) =
    if some_blank input.models then err (config "provider model names must not be empty") else ok tt

unfoldable pub validate_provider_input : ProviderInput → Result Error (Unit {0})
unfolding validate_base_url after_url
validate_provider_input input =
    if is_blank_name input.id || ltb 128 (len input.id)
    then err (config "provider id must be 1-128 characters")
    else if is_blank_name input.name || ltb 256 (len input.name)
    then err (config "provider name must be 1-256 characters")
    else after_url input (validate_base_url input.base_url)

abbrev pub is_provider : String → Provider → Bool
is_provider id p = p.id == id

unfoldable pub list_providers : Exec Error (List Provider)
list_providers =
    query "list providers"
      (λ w. sort_by (λ (a : Provider) (b : Provider). lt_text b.id a.id) w.providers)

unfoldable pub get_provider : String → Exec Error (Option Provider)
get_provider id = query "get provider" (λ w. find (is_provider id) w.providers)

abbrev pub set_provider : String → (Provider → Provider) → World → World
set_provider id f w = record w { providers = update (is_provider id) f w.providers }

-- the loop of `clear_other_defaults`: an update for each of the rows
unfoldable pub clear_defaults : List Provider → Exec Error (Unit {0})
clear_defaults [] = pure tt
clear_defaults (item ∷ items) = do
  now ← now_utc
  write "clear default provider"
      (set_provider item.id (λ p. record item { is_default = false; updated_at = now }))
  clear_defaults items

unfoldable pub clear_other_defaults : String → Exec Error (Unit {0})
unfolding clear_defaults
clear_other_defaults except_id = do
  defaults ←
      query "find default providers"
        (λ w. select (λ (p : Provider). p.is_default && not (p.id == except_id)) w.providers)
  clear_defaults defaults

abbrev pub clear_if : Bool → String → Exec Error (Unit {0})
clear_if true id = clear_other_defaults id
clear_if false id = pure tt

unfoldable pub overwrite_provider : ProviderInput → Option String → ℕ → Provider → Provider
overwrite_provider input models now p = record p {
  name = input.name;
  base_url = input.base_url;
  enabled = input.enabled;
  is_default = input.is_default;
  models = models;
  updated_at = now;
}

unfoldable pub new_provider : ProviderInput → Option String → ℕ → Provider
new_provider input models now = record {
  id = input.id;
  name = input.name;
  base_url = input.base_url;
  enabled = input.enabled;
  is_default = input.is_default;
  models = models;
  created_at = format_time now;
  updated_at = format_time now;
}

unfoldable pub loaded_provider : Option Provider → Exec Error Provider
loaded_provider none = raise (database "provider inserted but could not be loaded")
loaded_provider (some p) = pure p

unfoldable pub write_provider :
    ProviderInput → Option String → ℕ → Option Provider → Exec Error Provider
unfolding overwrite_provider new_provider clear_other_defaults get_provider loaded_provider
write_provider input models now (some existing) = do
  updated ← execute "update provider" (λ w. (
    overwrite_provider input models now existing,
    set_provider existing.id (λ p. overwrite_provider input models now existing) w,
  ))
  clear_if input.is_default input.id
  pure updated
write_provider input models now none = do
  write "insert provider"
      (λ w. record w { providers = w.providers ++ new_provider input models now ∷ [] })
  clear_if input.is_default input.id
  inserted ← get_provider input.id
  loaded_provider inserted

unfoldable pub upsert_provider : External → ProviderInput → Exec Error Provider
unfolding validate_provider_input get_provider write_provider
upsert_provider x input = do
  lift (validate_provider_input input)
  now ← now_utc
  let models = Opt.map x.print_strings input.models
  existing ← get_provider input.id
  write_provider input models now existing

-- The foreign keys of the tables delete the keys of the provider and their access rows with it.
unfoldable pub without_provider : String → World → World
without_provider id w =
    let gone = select (λ (k : ProviderKey). k.provider_id == id) w.provider_keys in
    record w {
      providers = discard (is_provider id) w.providers;
      provider_keys = discard (λ (k : ProviderKey). k.provider_id == id) w.provider_keys;
      provider_key_access =
          discard
            (λ (a : ProviderKeyAccess). any (λ (k : ProviderKey). k.id == a.provider_key_id) gone)
            w.provider_key_access;
    }

unfoldable pub delete_provider : String → Exec Error Bool
unfolding without_provider
delete_provider id =
    execute "delete provider" (λ w. (any (is_provider id) w.providers, without_provider id w))

unfoldable pub set_default : String → Option Provider → Exec Error (Unit {0})
unfolding clear_other_defaults
set_default id none = raise (config ("provider '" <> id <> "' not found"))
set_default id (some provider) =
    if provider.enabled
    then (do
      clear_other_defaults id
      now ← now_utc
      write "set default provider"
          (set_provider provider.id (λ p. record provider { is_default = true; updated_at = now })))
    else raise (config "a disabled provider cannot be default")

unfoldable pub set_default_provider : String → Exec Error (Unit {0})
unfolding set_default get_provider
set_default_provider id = do provider ← get_provider id; set_default id provider

-- `provider_models_contain`, for a list that is given
abbrev pub listed : External → String → Option String → Bool
listed x requested none = false
listed x requested (some json) = elim (x.parse_strings json) [
  | none ↦ false
  | some values ↦ contains values requested
]

-- the loop, and the fallback
unfoldable pub choose_provider : External → Option String → List Provider → Option Provider
choose_provider x none providers = find (λ (p : Provider). p.is_default) providers
choose_provider x (some model) providers =
    elim (find (λ (p : Provider). listed x model p.models) providers) [
      | none ↦ find (λ (p : Provider). p.is_default) providers
      | some candidate ↦ some candidate
    ]

unfoldable pub resolve_provider_for_model : External → Option String → Exec Error (Option Provider)
unfolding choose_provider list_providers
resolve_provider_for_model x model = do
  providers ← list_providers
  pure (choose_provider x model (select (λ (p : Provider). p.enabled) providers))
