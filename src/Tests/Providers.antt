-- ===== src/Tests/Providers.antt =====
-- The laws of crates/central/src/provider.rs at concrete rows.
use oidc_agent_compat.Prelude.{◌≡◌, refl, false, [], ◌∷◌, find}
use oidc_agent_compat.Error.{ok}
use oidc_agent_compat.World.{World, query, execute, now_utc, write, ◌>>=◌}
use oidc_agent_compat.Providers.{set_default_provider}
use oidc_agent_compat.Providers.Defaults.{Sole, set_default_provider-Sole}
use oidc_agent_compat.Providers.Keys.{enabled_keys, resolve_key}
use oidc_agent_compat.Providers.Keys.Chosen.{Answers, opened, is_usable, resolve_key-eq-find}
use oidc_agent_compat.Tests.Data.{env, central, open_provider}

resolve_key_example :
    Answers env
      ("ops" ∷ [])
      []
      (opened env ("ops" ∷ []) [] (
        find
          (is_usable env ("ops" ∷ []) [] central)
          (enabled_keys env ("ops" ∷ []) [] "openai" central)))
      []
      (resolve_key env ("ops" ∷ []) [] "openai" central)
resolve_key_example = resolve_key-eq-find env ("ops" ∷ []) [] "openai" central

-- a second provider, which is to take the place of the default
abbrev two_providers : World
two_providers = record central {
  providers = open_provider ∷ record open_provider { id = "azure"; is_default = false } ∷ [];
}

azure_set : (set_default_provider "azure" two_providers).0 ≡ ok tt
unfolding set_default_provider query execute now_utc write ◌>>=◌
azure_set = refl

set_default_provider_example : Sole "azure" (set_default_provider "azure" two_providers).1
set_default_provider_example = set_default_provider-Sole "azure" two_providers azure_set
