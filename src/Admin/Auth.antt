-- ===== src/Admin/Auth.antt =====
-- crates/central/src/admin.rs: `admin_auth_middleware`.
pub mod Admitted
use mathlib.Core.Option as Opt
use oidc_agent_compat.Prelude.{String, Option, none, some, List, [], if◌then◌else◌}
use oidc_agent_compat.Error.{Error, Result, ok, err}
use oidc_agent_compat.External.{External}
use oidc_agent_compat.World.{raise, ◌>>=◌, attempt}
use oidc_agent_compat.Policy.Merge.{contains}
use oidc_agent_compat.Token.{TokenIdentity, verify_token}
use oidc_agent_compat.Proxy.Auth.{bearer_of}
use oidc_agent_compat.Proxy.Http.{Request, Layer}

-- The rest of the service, behind the identity that the layer attaches.
pub record AdminIdentity : Type 0 where
  pub subject : String

abbrev pub AdminNext : Type 0
AdminNext = AdminIdentity → Request → Layer

-- `unwrap_or("[]")` and `unwrap_or_default()`
unfoldable pub token_groups : External → Option String → List String
token_groups x groups = Opt.get_or (x.parse_strings (Opt.get_or groups "[]")) []

module _ (x : External) (admin_group : String) (next : AdminNext) where
  -- the code behind the verification
  unfoldable pub admit_admin : Request → Result Error (Option TokenIdentity) → Layer
  unfolding token_groups
  admit_admin request (err e) = raise 500
  admit_admin request (ok none) = raise 401
  admit_admin request (ok (some identity)) =
      if contains (token_groups x identity.groups) admin_group
      then next (record { subject = identity.subject }) request
      else raise 403

  unfoldable pub admin_auth_middleware : Request → Layer
  unfolding admit_admin
  admin_auth_middleware request = elim (bearer_of request) [
    | none ↦ raise 401
    | some bearer ↦ do
      verification ← attempt (verify_token x bearer)
      admit_admin request verification
  ]
