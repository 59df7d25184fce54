-- ===== src/Device.antt =====
-- crates/central/src/device_store.rs: the registered devices and their revocation.
-- `cert_fingerprint` is the unique key of the table.
pub mod Answer
pub mod Laws
use mathlib.Core.Option as Opt
use oidc_agent_compat.Prelude.{
  ℕ, String, ◌==◌, Bool, true, false, Option, none, some, List, [], ◌∷◌, ◌++◌, find, any, update,
}
use oidc_agent_compat.Error.{Error}
use oidc_agent_compat.Entity.{Device}
use oidc_agent_compat.World.{
  World, Exec, pure, ◌>>=◌, ◌>>◌, query, execute, write, now_utc, new_v4, format_time,
}

unfoldable pub list_devices : Exec Error (List Device)
list_devices = query "list devices" (λ w. w.devices)

abbrev pub has_fingerprint : String → Device → Bool
has_fingerprint fingerprint d = d.cert_fingerprint == fingerprint

unfoldable pub get_device : String → Exec Error (Option Device)
get_device fingerprint = query "get device" (λ w. find (has_fingerprint fingerprint) w.devices)

-- `UPDATE devices SET last_seen_at = $1, user_email = $2 WHERE id = $3`
abbrev pub refresh : String → Option String → ℕ → World → World
refresh id user_email now w = record w {
  devices =
      update (λ d. d.id == id)
        (λ d. record d { last_seen_at = some (format_time now); user_email = user_email })
        w.devices;
}

abbrev pub new_device : String → String → String → Option String → (created seen : ℕ) → Device
new_device id cert_fingerprint user_subject user_email created seen = record {
  id = id;
  cert_fingerprint = cert_fingerprint;
  user_subject = user_subject;
  user_email = user_email;
  revoked = false;
  created_at = created;
  last_seen_at = some seen;
}

abbrev pub insert_device : Device → World → World
insert_device d w = record w { devices = w.devices ++ d ∷ [] }

unfoldable pub write_device :
    (cert_fingerprint user_subject : String) → Option String → Option Device → Exec Error Device
write_device cert_fingerprint user_subject user_email (some model) = do
  now ← now_utc
  write "update device" (refresh model.id user_email now)
  pure (record model { user_email = user_email; last_seen_at = some now })
write_device cert_fingerprint user_subject user_email none = do
  now ← now_utc
  id ← new_v4
  let stored = format_time now
  write "insert device"
      (insert_device (new_device id cert_fingerprint user_subject user_email stored stored))
  pure (new_device id cert_fingerprint user_subject user_email now now)

unfoldable pub upsert_device :
    (cert_fingerprint user_subject : String) → Option String → Exec Error Device
unfolding get_device write_device
upsert_device cert_fingerprint user_subject user_email = do
  existing ← get_device cert_fingerprint
  write_device cert_fingerprint user_subject user_email existing

abbrev pub set_flag : String → Bool → World → World
set_flag fingerprint revoked w = record w {
  devices = update (has_fingerprint fingerprint) (λ d. record d { revoked = revoked }) w.devices;
}

-- `rows_affected() > 0`
unfoldable pub set_revoked : String → Bool → Exec Error Bool
set_revoked fingerprint revoked =
    execute "set revoked"
      (λ w. (any (has_fingerprint fingerprint) w.devices, set_flag fingerprint revoked w))

unfoldable pub revoke : String → Exec Error Bool
unfolding set_revoked
revoke fingerprint = set_revoked fingerprint true

unfoldable pub reinstate : String → Exec Error Bool
unfolding set_revoked
reinstate fingerprint = set_revoked fingerprint false

unfoldable pub is_revoked : String → Exec Error (Option Bool)
unfolding get_device
is_revoked fingerprint = do
  device ← get_device fingerprint
  pure (Opt.map (λ (d : Device). d.revoked) device)
