-- ===== src/Device/Laws.antt =====
-- Revocation of devices in crates/central/src/device_store.rs.
use mathlib.Core.Option as Opt
use oidc_agent_compat.Prelude.{
  ℕ, suc, String, ◌==◌, ◌≡◌, refl, ap, ◌∙◌, inl, inr, Bool, true, false, Option, none, some, List,
  [], ◌∷◌, find, any, update, find-update, find-update-none, find-concat_found, find-update_other,
  Bool-cases, ◌++◌, arith, Option-cases, eq_iff,
}
use oidc_agent_compat.Error.{ok, ok-injective}
use oidc_agent_compat.Entity.{Device}
use oidc_agent_compat.World.{World, ◌>>=◌, query, now_utc, new_v4, format_time}
use oidc_agent_compat.World.Cases.{with_faults, execute-Ends, write-Ends}
use oidc_agent_compat.Device.{
  has_fingerprint, get_device, refresh, new_device, insert_device, write_device, upsert_device,
  set_flag, set_revoked,
}
use oidc_agent_compat.Device.Answer.{revocation}

module _ {ℓ κ} {A : Type ℓ} {B : Type κ} (g : A → B) (p q : A → Bool) where
  -- a change of rows that keeps the key and what is read of them
  map-find-update :
      (f : A → A) (xs : List A)
      → ((a : A) → p (f a) ≡ p a)
      → ((a : A) → g (f a) ≡ g a)
      → Opt.map g (find p (update q f xs)) ≡ Opt.map g (find p xs)
  map-find-update f xs keeps same = elim (Option-cases (find p xs)) [
    | inl missing ↦ rw (missing, find-update-none p q f keeps xs missing) refl
    | inr (a, found) ↦
        rw (found, find-update p q f keeps xs found)
          (ap some (elim (Bool-cases (q a)) [ inl h ↦ rw h (same a) | inr h ↦ rw h refl ]))
  ]

  map-find-concat :
      (xs : List A) (new : A) {b : B}
      → Opt.map g (find p xs) ≡ some b
      → Opt.map g (find p (xs ++ new ∷ [])) ≡ some b
  map-find-concat xs new h = elim (Option-cases (find p xs)) [
    | inl missing ↦ let bad = rw missing at h in cc bad
    | inr (a, found) ↦ rw (find-concat_found p xs new found) (rw found at h)
  ]

module _ (other : String) (flag : Bool) where
  abbrev Is : World → Type 0
  Is w = revocation other w ≡ some flag

  Is-refresh :
      (id : String) (email : Option String) (now : ℕ) (w : World)
      → Is w
      → Is (refresh id email now w)
  Is-refresh id email now w h =
      map-find-update (λ (d : Device). d.revoked) (has_fingerprint other) (λ d. d.id == id) _
        w.devices (λ d. refl) (λ d. refl)
      ∙ h

  Is-insert : (d : Device) (w : World) → Is w → Is (insert_device d w)
  Is-insert d w h =
      map-find-concat (λ (d : Device). d.revoked) (has_fingerprint other) (has_fingerprint other)
        w.devices d h

  Is-write_device :
      (fingerprint subject : String) (email : Option String) (existing : Option Device) (w : World)
      → Is w
      → Is (write_device fingerprint subject email existing w).1
  unfolding write_device ◌>>=◌ now_utc new_v4
  Is-write_device fingerprint subject email (some model) w h =
      let (fs, ends) = write-Ends (refresh model.id email w.now) "update device" w in
      elim ends [
        | inl (r, after) ↦ rw (r, after) (Is-refresh model.id email w.now (with_faults w fs) h)
        | inr (e, r, after) ↦ rw (r, after) h
      ]
  Is-write_device fingerprint subject email none w h =
      let v = record w { drawn = suc w.drawn } in
      let row =
        new_device (w.uuids w.drawn) fingerprint subject email (format_time w.now)
          (format_time w.now) in
      let (fs, ends) = write-Ends (insert_device row) "insert device" v in
      elim ends [
        | inl (r, after) ↦ rw (r, after) (Is-insert row (with_faults v fs) h)
        | inr (e, r, after) ↦ rw (r, after) h
      ]

  -- Registering or refreshing a device, whatever the database answers, leaves the revocation of
  -- every registered device as it was: no request reinstates a device that was revoked.
  pub upsert_device-revocation :
      (fingerprint subject : String) (email : Option String) (w : World)
      → revocation other w ≡ some flag
      → revocation other (upsert_device fingerprint subject email w).1 ≡ some flag
  unfolding upsert_device get_device ◌>>=◌ query
  upsert_device-revocation fingerprint subject email w h =
      let (fs, ends) =
        execute-Ends (λ v. (find (has_fingerprint fingerprint) v.devices, v)) "get device" w in
      elim ends [
        | inl (r, after) ↦
            rw (r, after)
              (Is-write_device fingerprint subject email
                (find (has_fingerprint fingerprint) w.devices) (with_faults w fs) h)
        | inr (e, r, after) ↦ rw (r, after) h
      ]

-- what a change of the flag does to a search for the device, and for another one
flag-find :
    (fingerprint : String) (revoked : Bool) (ds : List Device)
    → any (has_fingerprint fingerprint) ds ≡ true
    → Opt.map
        (λ (d : Device). d.revoked)
        (find
          (has_fingerprint fingerprint)
          (update (has_fingerprint fingerprint) (λ d. record d { revoked = revoked }) ds))
      ≡ some revoked
flag-find fingerprint revoked [] h = cc h
flag-find fingerprint revoked (d ∷ ds) h = ground (arith, flag-find fingerprint revoked ds)

other_device :
    (fingerprint other : String)
    → (fingerprint == other) ≡ false
    → (d : Device) → has_fingerprint fingerprint d ≡ true
    → has_fingerprint other d ≡ false
other_device fingerprint other ne d h = ground (
  arith,
  eq_iff d.cert_fingerprint fingerprint,
  eq_iff d.cert_fingerprint other,
  eq_iff fingerprint other,
)

-- When the revocation or the reinstatement of a device answers that there is such a device, then
-- the database says that this device is revoked, or not, and says the same as before of the others.
pub set_revoked_lem :
    (fingerprint other : String) (revoked : Bool) (w : World)
    → (set_revoked fingerprint revoked w).0 ≡ ok true
    → (fingerprint == other) ≡ false
    → let v = (set_revoked fingerprint revoked w).1 in
      (revocation fingerprint v ≡ some revoked) × (revocation other v ≡ revocation other w)
unfolding set_revoked
set_revoked_lem fingerprint other revoked w h ne =
    let mine = has_fingerprint fingerprint in
    let (fs, ends) =
      execute-Ends (λ v. (any mine v.devices, set_flag fingerprint revoked v)) "set revoked" w in
    elim ends [
      | inl (r, after) ↦
          let answer = ok-injective (rw r at h) in
          let theirs = ap (Opt.map (λ (d : Device). d.revoked)) (
            find-update_other (has_fingerprint other) mine (λ d. record d { revoked = revoked })
              w.devices (λ d. refl) (other_device fingerprint other ne)) in
          (rw after (flag-find fingerprint revoked w.devices answer), rw after theirs)
      | inr (e, r, after) ↦ let bad = rw r at h in cc bad
    ]
