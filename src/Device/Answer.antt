-- ===== src/Device/Answer.antt =====
-- What the operations of crates/central/src/device_store.rs answer, and what they leave alone.
use mathlib.Core.Option as Opt
use oidc_agent_compat.Prelude.{
  suc, String, ◌≡◌, refl, ◌⊎◌, inl, inr, Bool, Option, none, some, List, [], find,
}
use oidc_agent_compat.Error.{Error, ok, err}
use oidc_agent_compat.Entity.{Device}
use oidc_agent_compat.World.{World, ◌>>=◌, query, write, now_utc, new_v4, format_time}
use oidc_agent_compat.World.Cases.{with_faults, execute-Ends, write-Ends, execute-answered}
use oidc_agent_compat.Device.{
  has_fingerprint, get_device, refresh, new_device, insert_device, write_device, upsert_device,
  is_revoked,
}

-- whether the database says that a device is revoked
abbrev pub revocation : String → World → Option Bool
revocation fingerprint w =
    Opt.map (λ (d : Device). d.revoked) (find (has_fingerprint fingerprint) w.devices)

pub is_revoked-Ends :
    (fingerprint : String) (w : World)
    → let (r, v) = is_revoked fingerprint w in
      (fs : List (Option String)) × ((r ≡ ok (revocation fingerprint w)) × (v ≡ with_faults w fs)
        ⊎ ((e : Error) × (r ≡ err e) × (v ≡ with_faults w fs)))
unfolding is_revoked get_device ◌>>=◌ query
is_revoked-Ends fingerprint w =
    let (fs, ends) =
      execute-Ends (λ v. (find (has_fingerprint fingerprint) v.devices, v)) "get device" w in
    elim ends [
      | inl (r, after) ↦ (fs, inl (rw r refl, rw (r, after) refl))
      | inr (e, r, after) ↦ (fs, inr (e, rw r refl, rw (r, after) refl))
    ]

-- what registering a device leaves alone
abbrev Kept : World → World → Type 0
Kept w v = (v.usage_counters ≡ w.usage_counters) × (v.now ≡ w.now)

write_device-keeps :
    (fingerprint subject : String) (email : Option String) (existing : Option Device) (w : World)
    → Kept w (write_device fingerprint subject email existing w).1
unfolding write_device ◌>>=◌ now_utc new_v4
write_device-keeps fingerprint subject email (some model) w =
    let (fs, ends) = write-Ends (refresh model.id email w.now) "update device" w in
    elim ends [
      | inl (r, after) ↦ rw (r, after) (refl, refl)
      | inr (e, r, after) ↦ rw (r, after) (refl, refl)
    ]
write_device-keeps fingerprint subject email none w =
    let v = record w { drawn = suc w.drawn } in
    let row =
      new_device (w.uuids w.drawn) fingerprint subject email (format_time w.now)
        (format_time w.now) in
    let (fs, ends) = write-Ends (insert_device row) "insert device" v in
    elim ends [
      | inl (r, after) ↦ rw (r, after) (refl, refl)
      | inr (e, r, after) ↦ rw (r, after) (refl, refl)
    ]

pub upsert_device-keeps :
    (fingerprint subject : String) (email : Option String) (w : World)
    → Kept w (upsert_device fingerprint subject email w).1
unfolding upsert_device get_device ◌>>=◌ query
upsert_device-keeps fingerprint subject email w =
    let (fs, ends) =
      execute-Ends (λ v. (find (has_fingerprint fingerprint) v.devices, v)) "get device" w in
    elim ends [
      | inl (r, after) ↦
          rw (r, after)
            (write_device-keeps fingerprint subject email
              (find (has_fingerprint fingerprint) w.devices) (with_faults w fs))
      | inr (e, r, after) ↦ rw (r, after) (refl, refl)
    ]

write_device-answers :
    (fingerprint subject : String) (email : Option String) (existing : Option Device) (w : World)
    → w.faults ≡ []
    → (write_device fingerprint subject email existing w).1.faults ≡ []
unfolding write_device ◌>>=◌ now_utc new_v4 write
write_device-answers fingerprint subject email (some model) w h =
    rw (execute-answered {0} (λ v. (tt, refresh model.id email w.now v)) "update device" w h) refl
write_device-answers fingerprint subject email none w h =
    let v = record w { drawn = suc w.drawn } in
    let row =
      new_device (w.uuids w.drawn) fingerprint subject email (format_time w.now)
        (format_time w.now) in
    rw (execute-answered {0} (λ v. (tt, insert_device row v)) "insert device" v h) refl

pub upsert_device-answers :
    (fingerprint subject : String) (email : Option String) (w : World)
    → w.faults ≡ []
    → (upsert_device fingerprint subject email w).1.faults ≡ []
unfolding upsert_device get_device ◌>>=◌ query
upsert_device-answers fingerprint subject email w h =
    rw (execute-answered (λ v. (find (has_fingerprint fingerprint) v.devices, v)) "get device" w h)
      (write_device-answers fingerprint subject email (find (has_fingerprint fingerprint) w.devices)
        (with_faults w []) refl)

pub is_revoked-answered :
    (fingerprint : String) (w : World)
    → w.faults ≡ []
    → is_revoked fingerprint w ≡ (ok (revocation fingerprint w), with_faults w [])
unfolding is_revoked get_device ◌>>=◌ query
is_revoked-answered fingerprint w h =
    rw (execute-answered (λ v. (find (has_fingerprint fingerprint) v.devices, v)) "get device" w h)
      refl
