-- ===== src/Providers/Keys.antt =====
-- crates/central/src/provider.rs: the keys of providers.
pub mod Chosen
use Prim.Native.String.{len}
use oidc_agent_compat.Prelude.{
  ℕ, suc, String, ◌<>◌, ◌==◌, Bool, true, false, ◌&&◌, ◌||◌, not, Option, none, some, List, [], ◌∷◌,
  ◌++◌, map, find, any, select, discard, update, ltb, eqb, length, sort_by, if◌then◌else◌,
}
use oidc_agent_compat.Prelude.Int.{ℤ, ltb_ℤ}
use oidc_agent_compat.Prelude.Text.{trim, lt_text}
use oidc_agent_compat.Prelude.Utf8.{from_utf8}
use oidc_agent_compat.Error.{Error, config, database, crypto, Result, ok, err}
use oidc_agent_compat.Entity.{Provider, ProviderKey, ProviderKeyAccess}
use oidc_agent_compat.External.{External}
use oidc_agent_compat.World.{
  World, Exec, pure, raise, lift, ◌>>=◌, ◌>>◌, query, execute, write, now_utc, new_v4, format_time,
}
use oidc_agent_compat.Policy.Merge.{contains}
use oidc_agent_compat.Providers.Access.{
  is_access_of, groups_with, key_access_groups, replace_access,
}
use oidc_agent_compat.Providers.{is_blank_name, get_provider}

pub record ProviderKeyInfo : Type 0 where
  pub id : String
  pub provider_id : String
  pub label : String
  pub priority : ℤ
  pub key_digest : String
  pub enabled : Bool
  pub allowed_groups : List String
  pub created_at : ℕ
  pub updated_at : ℕ

pub record ProviderKeyUpdate : Type 0 where
  pub label : String
  pub priority : ℤ
  pub enabled : Bool
  pub allowed_groups : List String

pub record ResolvedProviderKey : Type 0 where
  pub id : String
  pub secret : String

abbrev pub key_info : ProviderKey → List String → ProviderKeyInfo
key_info key allowed_groups = record {
  id = key.id;
  provider_id = key.provider_id;
  label = key.label;
  priority = key.priority;
  key_digest = key.key_digest;
  enabled = key.enabled;
  allowed_groups = allowed_groups;
  created_at = key.created_at;
  updated_at = key.updated_at;
}

unfoldable pub validate_key_input : String → String → List String → Result Error (Unit {0})
validate_key_input label secret groups =
    if is_blank_name label || ltb 256 (len label)
    then err (config "provider key label must be 1-256 characters")
    else if secret == ""
    then err (config "provider key must not be empty")
    else if any is_blank_name groups
    then err (config "provider key access groups must not be empty")
    else ok tt

-- `order_by_asc(Priority).order_by_asc(CreatedAt)`
abbrev pub is_later : ProviderKey → ProviderKey → Bool
is_later a b =
    ltb_ℤ b.priority a.priority
    || (not (ltb_ℤ a.priority b.priority) && ltb b.created_at a.created_at)

abbrev pub has_key : String → ProviderKey → Bool
has_key id k = k.id == id

abbrev pub is_key_of : String → String → ProviderKey → Bool
is_key_of provider_id key_id k = k.id == key_id && k.provider_id == provider_id

unfoldable pub key_infos : List ProviderKey → Exec Error (List ProviderKeyInfo)
unfolding key_access_groups
key_infos [] = pure []
key_infos (key ∷ keys) = do
  groups ← key_access_groups key.id
  rest ← key_infos keys
  pure (key_info key groups ∷ rest)

unfoldable pub list_keys : String → Exec Error (List ProviderKeyInfo)
unfolding key_infos
list_keys provider_id = do
  keys ← query "list provider keys" (λ w.
      sort_by is_later (select (λ (k : ProviderKey). k.provider_id == provider_id) w.provider_keys))
  key_infos keys

unfoldable pub sealed_key : Option (List ℕ) → List ℕ → Result Error (List ℕ × List ℕ)
sealed_key none nonce = err (crypto "encrypt provider key")
sealed_key (some ciphertext) nonce = ok (ciphertext, nonce)

-- `encrypt`, with a fresh nonce
unfoldable pub seal_key : External → String → Exec Error (List ℕ × List ℕ)
unfolding sealed_key
seal_key x secret w =
    let nonce = w.nonces w.drawn in
    (sealed_key (x.encrypt nonce secret) nonce, record w { drawn = suc w.drawn })

unfoldable pub required : String → Option ProviderKey → Exec Error ProviderKey
required message none = raise (config message)
required message (some key) = pure key

unfoldable pub loaded_key : Option ProviderKey → Exec Error ProviderKey
loaded_key none = raise (database "provider key inserted but could not be loaded")
loaded_key (some key) = pure key

-- the access list is replaced, and the key returned with what is stored
unfoldable pub with_access : ProviderKey → List String → Exec Error ProviderKeyInfo
unfolding replace_access key_access_groups
with_access key allowed_groups = do
  replace_access key.id allowed_groups
  groups ← key_access_groups key.id
  pure (key_info key groups)

module _ (x : External) (sha256_hex : String → String) where
  unfoldable pub new_key :
      (provider_id label secret : String) → ℤ → List ℕ × List ℕ → (id : String) → ℕ → ProviderKey
  new_key provider_id label secret priority (ciphertext, nonce) id now = record {
    id = id;
    provider_id = provider_id;
    label = trim label;
    priority = priority;
    ciphertext = ciphertext;
    nonce = nonce;
    key_digest = sha256_hex secret;
    enabled = true;
    created_at = format_time now;
    updated_at = format_time now;
  }

  unfoldable pub insert_key :
      (provider_id label secret : String)
      → ℤ
      → List String
      → Option Provider
      → Exec Error ProviderKeyInfo
  unfolding validate_key_input seal_key new_key loaded_key with_access
  insert_key provider_id label secret priority allowed_groups none =
      raise (config ("provider '" <> provider_id <> "' not found"))
  insert_key provider_id label secret priority allowed_groups (some provider) = do
    lift (validate_key_input label secret allowed_groups)
    sealed ← seal_key x secret
    now ← now_utc
    key_id ← new_v4
    write "insert provider key" (λ w. record w {
      provider_keys =
          w.provider_keys ++ new_key provider_id label secret priority sealed key_id now ∷ [];
    })
    row ← query "load provider key" (λ w. find (has_key key_id) w.provider_keys)
    key ← loaded_key row
    with_access key allowed_groups

  unfoldable pub add_key :
      (provider_id label secret : String) → ℤ → List String → Exec Error ProviderKeyInfo
  unfolding insert_key get_provider
  add_key provider_id label secret priority allowed_groups = do
    provider ← get_provider provider_id
    insert_key provider_id label secret priority allowed_groups provider

unfoldable pub get_key : String → String → Exec Error (Option ProviderKey)
get_key provider_id key_id =
    query "get provider key" (λ w. find (is_key_of provider_id key_id) w.provider_keys)

unfoldable pub updated_key : ProviderKeyUpdate → ℕ → ProviderKey → ProviderKey
updated_key changes now key = record key {
  label = trim changes.label;
  priority = changes.priority;
  enabled = changes.enabled;
  updated_at = now;
}

unfoldable pub change_key : String → ProviderKeyUpdate → ProviderKey → Exec Error ProviderKeyInfo
unfolding updated_key with_access
change_key provider_id changes key =
    if key.provider_id == provider_id
    then (do
      now ← now_utc
      written ← execute "update provider key" (λ w. (
        updated_key changes now key,
        record w {
          provider_keys =
              update (has_key key.id) (λ k. updated_key changes now key) w.provider_keys;
        },
      ))
      with_access written changes.allowed_groups)
    else raise
        (config ("provider key '" <> key.id <> "' not found for provider '" <> provider_id <> "'"))

unfoldable pub update_key : String → String → ProviderKeyUpdate → Exec Error ProviderKeyInfo
unfolding validate_key_input required change_key
update_key provider_id key_id changes = do
  lift (validate_key_input changes.label "placeholder-not-used" changes.allowed_groups)
  row ← query "get provider key" (λ w. find (has_key key_id) w.provider_keys)
  key ← required ("provider key '" <> key_id <> "' not found") row
  change_key provider_id changes key

-- The foreign key of the access table deletes the access rows of the key with it.
unfoldable pub delete_key : String → String → Exec Error Bool
delete_key provider_id key_id = execute "delete provider key" (λ w. (
  any (is_key_of provider_id key_id) w.provider_keys,
  record w {
    provider_keys = discard (is_key_of provider_id key_id) w.provider_keys;
    provider_key_access =
        if any (is_key_of provider_id key_id) w.provider_keys
        then discard (is_access_of key_id) w.provider_key_access
        else w.provider_key_access;
  },
))

unfoldable pub key_text : Option (List ℕ) → Result Error String
unfolding from_utf8
key_text none = err (crypto "decrypt provider key")
key_text (some plaintext) = elim (from_utf8 plaintext) [
  | none ↦ err (crypto "provider key is not UTF-8")
  | some s ↦ ok s
]

-- `decrypt`
unfoldable pub open_key : External → ProviderKey → Result Error String
unfolding key_text
open_key x key =
    if eqb (length key.nonce) 12
    then key_text (x.decrypt key.nonce key.ciphertext)
    else err (crypto "invalid provider key nonce")

-- a key without access rows is unrestricted
abbrev pub access_allows : List String → List String → Bool
access_allows groups [] = true
access_allows groups (g ∷ access) = any (contains groups) (g ∷ access)

module _ (x : External) (groups excluded : List String) where
  unfoldable pub take_key : ProviderKey → Exec Error (Option ResolvedProviderKey)
  unfolding open_key
  take_key key = do
    secret ← lift (open_key x key)
    pure (some (record { id = key.id; secret = secret }))

  -- the loop over the keys
  unfoldable pub choose_key : List ProviderKey → Exec Error (Option ResolvedProviderKey)
  unfolding key_access_groups take_key
  choose_key [] = pure none
  choose_key (key ∷ keys) =
      let rest = choose_key keys in
      if contains excluded key.id then rest else (do
        access ← key_access_groups key.id
        if access_allows groups access then take_key key else rest)

  abbrev pub enabled_keys : String → World → List ProviderKey
  enabled_keys provider_id w =
      sort_by is_later
        (select (λ (k : ProviderKey). k.provider_id == provider_id && k.enabled) w.provider_keys)

  unfoldable pub resolve_key : String → Exec Error (Option ResolvedProviderKey)
  unfolding choose_key
  resolve_key provider_id = do
    keys ← query "resolve provider key" (enabled_keys provider_id)
    choose_key keys
