-- ===== src/Providers/Keys/Chosen.antt =====
-- Which key crates/central/src/provider.rs selects for a request.
use oidc_agent_compat.Prelude.{
  String, ◌≡◌, refl, ◌⊎◌, inl, inr, Bool, true, false, ◌&&◌, not, Option, none, some, List, [], ◌∷◌,
  any, find, if◌then◌else◌, Bool-cases,
}
use oidc_agent_compat.Error.{Error, Result, ok, err}
use oidc_agent_compat.Entity.{ProviderKey}
use oidc_agent_compat.External.{External}
use oidc_agent_compat.World.{World, pure, lift, ◌>>=◌, query, execute}
use oidc_agent_compat.World.Cases.{with_faults}
use oidc_agent_compat.Policy.Merge.{contains}
use oidc_agent_compat.Providers.Access.{groups_with, key_access_groups}
use oidc_agent_compat.Providers.Keys.{
  ResolvedProviderKey, open_key, access_allows, take_key, choose_key, enabled_keys, resolve_key,
}

-- a statement is to fail
abbrev pub is_fault : Option String → Bool
is_fault none = false
is_fault (some _) = true

module _ (x : External) (groups excluded : List String) where
  -- the key was not tried, and is unrestricted or granted to one of the groups
  abbrev pub is_usable : World → ProviderKey → Bool
  is_usable w key = not (contains excluded key.id) && access_allows groups (groups_with key.id w)

  abbrev pub with_secret :
      ProviderKey → Result Error String → Result Error (Option ResolvedProviderKey)
  with_secret key (ok secret) = ok (some (record { id = key.id; secret = secret }))
  with_secret key (err e) = err e

  -- a key that was found, opened
  abbrev pub opened : Option ProviderKey → Result Error (Option ResolvedProviderKey)
  opened none = ok none
  opened (some key) = with_secret key (open_key x key)

  -- the answer, or an error if a statement fails
  abbrev pub Answers :
      Result Error (Option ResolvedProviderKey)
      → List (Option String)
      → Result Error (Option ResolvedProviderKey) × World
      → Type 0
  Answers expected faults r =
      (r.0 ≡ expected) ⊎ ((any is_fault faults ≡ true) × ((e : Error) × (r.0 ≡ err e)))

  take_key_lem :
      (key : ProviderKey) (w : World) → (take_key x groups excluded key w).0 ≡ opened (some key)
  unfolding take_key ◌>>=◌
  take_key_lem key w = go (open_key x key)
    where
      go :
          (r : Result Error String)
          → (◌>>=◌ (lift r) (λ secret. pure (some (record { id = key.id; secret = secret }))) w).0
            ≡ with_secret key r
      go (ok s) = refl
      go (err e) = refl

  -- a key that is not excluded, when its access is known
  after_access :
      (key : ProviderKey) (keys : List ProviderKey) (w : World) (faults : List (Option String))
      → Answers
          (opened (find (is_usable w) keys))
          faults
          (choose_key x groups excluded keys (with_faults w faults))
      → Answers
          (opened (
            if access_allows groups (groups_with key.id w)
            then some key
            else find (is_usable w) keys))
          faults
          ((if access_allows groups (groups_with key.id w)
              then take_key x groups excluded key
              else choose_key x groups excluded keys)
            (with_faults w faults))
  after_access key keys w faults h =
      elim (Bool-cases (access_allows groups (groups_with key.id w))) [
        | inl g ↦ rw g (inl (take_key_lem key (with_faults w faults)))
        | inr n ↦ rw n h
      ]

  choose_key_lem :
      (keys : List ProviderKey) (w : World) (faults : List (Option String))
      → Answers
          (opened (find (is_usable w) keys))
          faults
          (choose_key x groups excluded keys (with_faults w faults))
  unfolding choose_key key_access_groups query execute ◌>>=◌
  choose_key_lem [] w faults = inl refl
  choose_key_lem (key ∷ keys) w [] = elim (Bool-cases (contains excluded key.id)) [
    | inl e ↦ rw e (choose_key_lem keys w [])
    | inr k ↦ rw k (after_access key keys w [] (choose_key_lem keys w []))
  ]
  choose_key_lem (key ∷ keys) w (none ∷ fs) = elim (Bool-cases (contains excluded key.id)) [
    | inl e ↦ rw e (choose_key_lem keys w (none ∷ fs))
    | inr k ↦ rw k (after_access key keys w fs (choose_key_lem keys w fs))
  ]
  choose_key_lem (key ∷ keys) w (some m ∷ fs) = elim (Bool-cases (contains excluded key.id)) [
    | inl e ↦ rw e (choose_key_lem keys w (some m ∷ fs))
    | inr k ↦ rw k (inr (refl, (_, refl)))
  ]

  resolve_with :
      (provider_id : String) (w : World) (faults : List (Option String))
      → Answers
          (opened (find (is_usable w) (enabled_keys x groups excluded provider_id w)))
          faults
          (resolve_key x groups excluded provider_id (with_faults w faults))
  unfolding resolve_key query execute ◌>>=◌
  resolve_with provider_id w [] = choose_key_lem (enabled_keys x groups excluded provider_id w) w []
  resolve_with provider_id w (none ∷ fs) =
      choose_key_lem (enabled_keys x groups excluded provider_id w) w fs
  resolve_with provider_id w (some m ∷ fs) = inr (refl, (_, refl))

  -- The resolution of a key answers with the first of the provider's enabled keys, by priority and
  -- age, that was not tried and is unrestricted or granted to one of the groups, decrypted, or with
  -- none; if its decryption fails, with that error, and another error only if a statement fails.
  pub resolve_key-eq-find :
      (provider_id : String) (w : World)
      → Answers
          (opened (find (is_usable w) (enabled_keys x groups excluded provider_id w)))
          w.faults
          (resolve_key x groups excluded provider_id w)
  resolve_key-eq-find provider_id w = resolve_with provider_id w w.faults
