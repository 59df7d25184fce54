-- ===== src/Admin.antt =====
-- crates/central/src/admin.rs: who may call the admin interface, and what its handlers share.
pub mod Auth
pub mod Policies
pub mod Devices
pub mod Providers
pub mod Keys
pub mod Servers
pub mod Reports
pub mod Routes
use oidc_agent_compat.Prelude.{
  ℕ, String, ◌<>◌, Bool, true, false, Option, none, some, List, [], ◌∷◌, ◌++◌, if◌then◌else◌,
}
use oidc_agent_compat.Error.{Error, config, to_string}
use oidc_agent_compat.Entity.{AdminAuditLog}
use oidc_agent_compat.World.{
  World, Exec, pure, raise, ◌>>=◌, ◌>>◌, attempt, write, now_utc, new_v4, format_time,
}

-- the status and the text of an error response
abbrev pub HandlerError : Type 0
HandlerError = ℕ × String

-- `HandlerResult`
abbrev pub Handler : Type 0 → Type 0
Handler A = Exec HandlerError A

unfoldable pub internal_error : Error → HandlerError
internal_error e = (500, to_string e)

unfoldable pub map_validation_err : Error → HandlerError
unfolding internal_error
map_validation_err (config message) = (400, message)
map_validation_err e = internal_error e

-- `ok_or_else` with a 404
unfoldable pub or_not_found {ℓ} : {A : Type ℓ} → String → Option A → Exec HandlerError A
or_not_found message none = raise (404, message)
or_not_found message (some a) = pure a

-- the same for an answer that says whether there was anything
unfoldable pub or_missing : String → Bool → Handler (Unit {0})
or_missing message true = pure tt
or_missing message false = raise (404, message)

abbrev pub provider_missing : String → String
provider_missing id = "provider '" <> id <> "' not found"

-- a failure to write the entry is logged
unfoldable pub record_admin_audit :
    (admin_subject action target : String) → Option String → Handler (Unit {0})
record_admin_audit admin_subject action target payload = do
  id ← new_v4
  now ← now_utc
  attempt {F = HandlerError} (
      write "admin audit" (λ w. record w {
        admin_audit_log =
            w.admin_audit_log
            ++ record {
              id = id;
              admin_subject = admin_subject;
              action = action;
              target = target;
              payload = payload;
              created_at = format_time now;
            }
              ∷ [];
      }))
  pure tt
