-- ===== src/Admin/Devices.antt =====
-- crates/central/src/admin.rs: the handlers of devices.
use oidc_agent_compat.Prelude.{ℕ, String, ◌<>◌, Bool, Option, none, List, map}
use oidc_agent_compat.Entity.{Device}
use oidc_agent_compat.World.{pure, ◌>>=◌, ◌>>◌, map_err}
use oidc_agent_compat.Device.{list_devices, revoke, reinstate}
use oidc_agent_compat.Admin.{Handler, internal_error, or_missing, record_admin_audit}

pub record DeviceResponse : Type 0 where
  pub cert_fingerprint : String
  pub user_subject : String
  pub user_email : Option String
  pub revoked : Bool

unfoldable pub device_response : Device → DeviceResponse
device_response m = record {
  cert_fingerprint = m.cert_fingerprint;
  user_subject = m.user_subject;
  user_email = m.user_email;
  revoked = m.revoked;
}

unfoldable pub list_devices_handler : Handler (List DeviceResponse)
unfolding device_response
list_devices_handler = do
  devices ← map_err internal_error list_devices
  pure (map device_response devices)

abbrev pub device_missing : String → String
device_missing fingerprint = "device '" <> fingerprint <> "' not found"

unfoldable pub revoke_device : (admin fingerprint : String) → Handler ℕ
unfolding or_missing record_admin_audit
revoke_device admin fingerprint = do
  revoked ← map_err internal_error (revoke fingerprint)
  or_missing (device_missing fingerprint) revoked
  record_admin_audit admin "revoke_device" fingerprint none
  pure 204

unfoldable pub reinstate_device : (admin fingerprint : String) → Handler ℕ
unfolding or_missing record_admin_audit
reinstate_device admin fingerprint = do
  reinstated ← map_err internal_error (reinstate fingerprint)
  or_missing (device_missing fingerprint) reinstated
  record_admin_audit admin "reinstate_device" fingerprint none
  pure 204
